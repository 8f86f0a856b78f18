-- ===== src/Queue/Table.antt =====
-- The table's invariant: the ids lie in `1 .. sequence` and differ, and the idempotency keys differ.
use mail_router.Prelude.{
  ℕ, ◌+◌, ◌≤◌, ◌≡◌, refl, Bool, true, false, Text, none, some, List, [], ◌∷◌, ◌++◌, map, arith,
  select, find_first, text_eq_iff, ◌⊎◌, inl, inr, Bool-cases,
}
use mathlib.Core.Option
use mail_router.Queue.Schema.{Row, has_id, has_key}

abbrev pub IsTable : ℕ → List Row → Type 0
IsTable top [] = Unit
IsTable top (r ∷ rs) =
    (1 ≤ r.id)
    × (r.id ≤ top)
    × (find_first (has_id r.id) rs ≡ none)
    × (find_first (has_key r.idempotency_key) rs ≡ none)
    × IsTable top rs

module _ (f : Row → Row) (id : (r : Row) → (f r).id ≡ r.id)
    (key : (r : Row) → (f r).idempotency_key ≡ r.idempotency_key) where
  find-map-id :
      (i : ℕ) (rs : List Row)
      → find_first (has_id i) rs ≡ none
      → find_first (has_id i) (map f rs) ≡ none
  find-map-id i [] h = refl
  find-map-id i (r ∷ rs) h = ground (arith, id r, find-map-id i rs)

  pub find-map-key :
      (k : Text) (rs : List Row)
      → find_first (has_key k) rs ≡ none
      → find_first (has_key k) (map f rs) ≡ none
  find-map-key k [] h = refl
  find-map-key k (r ∷ rs) h = rw (key r) (ground (arith, find-map-key k rs))

  -- An update that leaves ids and keys alone keeps the invariant.
  pub map-IsTable : (top : ℕ) (rs : List Row) → IsTable top rs → IsTable top (map f rs)
  map-IsTable top [] h = tt
  map-IsTable top (r ∷ rs) (low, high, no_id, no_key, rest) = (
    rw (id r) low,
    rw (id r) high,
    rw (id r) (find-map-id r.id rs no_id),
    rw (key r) (find-map-key r.idempotency_key rs no_key),
    map-IsTable top rs rest,
  )

pub find-select :
    (p q : Row → Bool) (rs : List Row) → find_first p rs ≡ none → find_first p (select q rs) ≡ none
find-select p q [] h = refl
find-select p q (r ∷ rs) h = ground (arith, find-select p q rs)

-- Rows can be deleted.
pub select-IsTable :
    (q : Row → Bool) (top : ℕ) (rs : List Row) → IsTable top rs → IsTable top (select q rs)
select-IsTable q top [] h = tt
select-IsTable q top (r ∷ rs) (low, high, no_id, no_key, rest) = ground (
  arith,
  find-select (has_id r.id) q rs no_id,
  find-select (has_key r.idempotency_key) q rs no_key,
  select-IsTable q top rs rest,
)

-- The bound can be raised.
pub IsTable-le : (m n : ℕ) (rs : List Row) → m ≤ n → IsTable m rs → IsTable n rs
IsTable-le m n [] le h = tt
IsTable-le m n (r ∷ rs) le (low, high, no_id, no_key, rest) =
    (low, omega arith, no_id, no_key, IsTable-le m n rs le rest)

find-append_none :
    (p : Row → Bool) (rs : List Row) (r : Row)
    → find_first p rs ≡ none
    → p r ≡ false
    → find_first p (rs ++ r ∷ []) ≡ none
find-append_none p [] r h e = ground arith
find-append_none p (q ∷ rs) r h e = ground (arith, find-append_none p rs r)

-- A row with a new id and a new key can be added at the end.
pub append-IsTable :
    (top : ℕ) (rs : List Row) (r : Row)
    → IsTable top rs
    → r.id ≡ top + 1
    → find_first (has_key r.idempotency_key) rs ≡ none
    → IsTable (top + 1) (rs ++ r ∷ [])
append-IsTable top [] r h id fresh = ground arith
append-IsTable top (q ∷ rs) r (low, high, no_id, no_key, rest) id fresh = (
  low,
  omega arith,
  find-append_none (has_id q.id) rs r no_id (ground arith),
  find-append_none (has_key q.idempotency_key) rs r no_key (
      ground (
        arith,
        text_eq_iff q.idempotency_key r.idempotency_key,
        text_eq_iff r.idempotency_key q.idempotency_key,
      )),
  append-IsTable top rs r rest id (ground arith),
)

-- An update that a test does not see.
pub find-map :
    (p : Row → Bool) (f : Row → Row)
    → ((r : Row) → p (f r) ≡ p r)
    → (rs : List Row) → find_first p (map f rs) ≡ Option.map f (find_first p rs)
find-map p f same [] = refl
find-map p f same (r ∷ rs) = ground (arith, same r, find-map p f same rs)

pub find-append :
    (p : Row → Bool) (rs qs : List Row) (r : Row)
    → find_first p rs ≡ some r
    → find_first p (rs ++ qs) ≡ some r
find-append p [] qs r h = cc
find-append p (q ∷ rs) qs r h = ground (arith, find-append p rs qs r)

pub find-append_new :
    (p : Row → Bool) (rs : List Row) (r : Row)
    → find_first p rs ≡ none
    → p r ≡ true
    → find_first p (rs ++ r ∷ []) ≡ some r
find-append_new p [] r h e = ground arith
find-append_new p (q ∷ rs) r h e = ground (arith, find-append_new p rs r)

pub find-append_inv :
    (p : Row → Bool) (rs : List Row) (q r : Row)
    → find_first p (rs ++ q ∷ []) ≡ some r
    → (find_first p rs ≡ some r) ⊎ (r ≡ q)
find-append_inv p [] q r h = elim (Bool-cases (p q)) [
  | inl e ↦ inr (cc (rw e at h))
  | inr e ↦ cc (rw e at h)
]
find-append_inv p (x ∷ rs) q r h = elim (Bool-cases (p x)) [
  | inl e ↦ inl (rw e (rw e at h))
  | inr e ↦ elim (find-append_inv p rs q r (rw e at h)) [
    | inl old ↦ inl (rw e old)
    | inr new ↦ inr new
  ]
]

pub find-select_kept :
    (p q : Row → Bool) (rs : List Row) (r : Row)
    → find_first p rs ≡ some r
    → q r ≡ true
    → find_first p (select q rs) ≡ some r
find-select_kept p q [] r h e = cc
find-select_kept p q (x ∷ rs) r h e = ground (arith, find-select_kept p q rs r)

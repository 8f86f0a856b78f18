-- ===== src/Queue/Counts.antt =====
-- How many rows are in each state, when the rows of given ids move to another state.
use mathlib.Core.Option
use mathlib.Core.HLevel.{¬_prop}
use mathlib.Core.Logic.{∥∥₁_elim}
use mathlib.Core.List.{
  Mem, Pairwise-cons, Pairwise, mem-cons_self, mem-cons_of_mem, exists_of_mem-map,
}
use mail_router.Prelude.{
  ℕ, ◌+◌, ◌≡◌, ◌≢◌, refl, ◌∙◌, ap, sym, Option, none, some, List, [], ◌∷◌, map, arith, count,
  find_first, Bool-cases, Text, text_eq, inl, inr, if◌then◌else◌, ◌==◌, ==_iff, All,
}
use mail_router.Queue.Schema.{State, Row, has_id, has_key, has_state, state_eq}
use mail_router.Queue.Table.{find-map}
use mail_router.Queue.Updates.{at_id}

abbrev pub DifferentIds : List Row → Type 0
DifferentIds rows = Pairwise (λ (a b : Row). a.id ≢ b.id) rows

-- The first row of the id is in the state.
abbrev pub IsIn : State → List Row → ℕ → Type 0
IsIn x rows i = (r : Row) × (find_first (has_id i) rows ≡ some r) × (r.state ≡ x)

-- `k` rows have gone from one state to the other.
abbrev pub Moves : State → State → ℕ → List Row → List Row → Type 0
Moves a b k rows rows' =
    (x : State)
    → count (has_state x) rows' + (if state_eq a x then k else 0)
      ≡ count (has_state x) rows + (if state_eq b x then k else 0)

pub find-id : (i : ℕ) (rows : List Row) (r : Row) → find_first (has_id i) rows ≡ some r → r.id ≡ i
find-id i [] r h = cc
find-id i (q ∷ rows) r h = ground (arith, find-id i rows r)

none-find :
    (i : ℕ) (rows : List Row)
    → ((a : Row) → Mem a rows → i ≢ a.id)
    → find_first (has_id i) rows ≡ none
none-find i [] h = refl
none-find i (r ∷ rows) h =
    ground (arith, h r mem-cons_self, none-find i rows (λ a m. h a (mem-cons_of_mem r m)))

module _ (f : Row → Row) (id : (r : Row) → (f r).id ≡ r.id) where
  pub map-DifferentIds : (rows : List Row) → DifferentIds rows → DifferentIds (map f rows)
  map-DifferentIds [] h = Pairwise.nil
  map-DifferentIds (r ∷ rows) h =
      let (first, rest) = Pairwise-cons.0 h in
      Pairwise-cons.1 (
        λ b m. ∥∥₁_elim (exists_of_mem-map m) ¬_prop (λ (a, inside, e) same.
            first a inside (sym (id r) ∙ same ∙ ap (λ (x : Row). x.id) (sym e) ∙ id a)),
        map-DifferentIds rows rest,
      )

  pub map-find :
      (i : ℕ) (rows : List Row) (r : Row)
      → find_first (has_id i) rows ≡ some r
      → find_first (has_id i) (map f rows) ≡ some (f r)
  map-find i rows r h =
      find-map (has_id i) f (λ x. ap (λ n. n == i) (id x)) rows ∙ ap (Option.map f) h

-- The row of the key is in the state.
abbrev pub IsKeyed : State → List Row → Text → Type 0
IsKeyed x rows k = (r : Row) × (find_first (has_key k) rows ≡ some r) × (r.state ≡ x)

-- Rows of the state were in it before.
abbrev pub IsOld : State → List Row → List Row → Type 0
IsOld x rows rows' = (k : Text) → IsKeyed x rows' k → IsKeyed x rows k

pub map-IsOld :
    (x : State) (f : Row → Row)
    → ((r : Row) → (f r).idempotency_key ≡ r.idempotency_key)
    → ((r : Row) → (f r).state ≡ x → r.state ≡ x)
    → (rows : List Row) → IsOld x rows (map f rows)
map-IsOld x f key back rows k (q, found, at) =
    go (find_first (has_key k) rows)
      (sym (find-map (has_key k) f (λ y. ap (λ t. text_eq t k) (key y)) rows) ∙ found) refl
  where
    go :
        (o : Option Row)
        → Option.map f o ≡ some q
        → find_first (has_key k) rows ≡ o
        → IsKeyed x rows k
    go none h e = cc
    go (some r) h e =
        let same : f r ≡ q = cc in (r, e, back r (ap (λ (y : Row). y.state) same ∙ at))

module _ (i : ℕ) (c : Row → Row) (b : State) (id : (r : Row) → (c r).id ≡ r.id)
    (state : (r : Row) → (c r).state ≡ b) where
  abbrev changed : Row → Row
  changed r = if has_id i r then c r else r

  changed_id : (r : Row) → (changed r).id ≡ r.id
  changed_id r = ground (arith, id r)

  at_id-absent : (rows : List Row) → find_first (has_id i) rows ≡ none → at_id i c rows ≡ rows
  at_id-absent [] h = refl
  at_id-absent (r ∷ rows) h = ground (arith, at_id-absent rows)

  pub at_id-DifferentIds : (rows : List Row) → DifferentIds rows → DifferentIds (at_id i c rows)
  at_id-DifferentIds = map-DifferentIds changed changed_id

  pub at_id-Moves :
      (a : State) (rows : List Row)
      → DifferentIds rows
      → IsIn a rows i
      → Moves a b 1 rows (at_id i c rows)
  at_id-Moves a [] different (q, found, at) x = cc
  at_id-Moves a (r ∷ rows) different (q, found, at) x =
      let (first, rest) = Pairwise-cons.0 different in
      elim (Bool-cases (has_id i r)) [
        | inl e ↦
            let absent = none-find i rows (λ y m. λ same. first y m ((==_iff r.id i).0 e ∙ same)) in
            let here : r.state ≡ a = ground arith in
            rw (e, at_id-absent rows absent, state r, here) (omega arith)
        | inr e ↦
            let later = at_id-Moves a rows rest (q, ground arith, at) x in
            rw e (omega (arith, later))
      ]

  pub at_id-IsIn :
      (x : State) (j : ℕ) (rows : List Row) → j ≢ i → IsIn x rows j → IsIn x (at_id i c rows) j
  at_id-IsIn x j rows other (q, found, at) = (
    changed q,
    map-find changed changed_id j rows q found,
    ground (arith, find-id j rows q found),
  )

  pub at_id-new : (a : State) (rows : List Row) → IsIn a rows i → IsIn b (at_id i c rows) i
  at_id-new a rows (q, found, at) = (
    changed q,
    map-find changed changed_id i rows q found,
    ground (arith, find-id i rows q found, state q),
  )

abbrev pub AreDifferent : List ℕ → Type 0
AreDifferent [] = Unit
AreDifferent (i ∷ is) = All (λ j. j ≢ i) is × AreDifferent is

pub Moves-trans :
    (a b : State) (k m n : ℕ) (rows rows' rows'' : List Row)
    → n ≡ k + m
    → Moves a b k rows rows'
    → Moves a b m rows' rows''
    → Moves a b n rows rows''
Moves-trans a b k m n rows rows' rows'' sum f g x = ground (arith, f x, g x)

pub Moves-through :
    (a b c : State) (k : ℕ) (rows rows' rows'' : List Row)
    → Moves a b k rows rows'
    → Moves b c k rows' rows''
    → Moves a c k rows rows''
Moves-through a b c k rows rows' rows'' f g x = ground (arith, f x, g x)

-- ===== src/Worker/Ready.antt =====
-- What a batch stands for: its items have different ids, and the rows that they copy are in flight.
use mathlib.Core.List.{
  Mem, Pairwise, Pairwise-cons, mem-cons_self, mem-cons_of_mem, not-mem-nil, eq-or-mem_of_mem-cons,
}
use mathlib.Core.List.Perm
use mathlib.Core.Logic.Or
use mathlib.Core.HLevel.{¬_prop}
use native.Mathlib.Nat.{ℕ_set}
use mail_router.Prelude.{
  ℕ, ◌≡◌, ◌≢◌, refl, ◌∙◌, ap, sym, true, Text, none, List, [], ◌∷◌, map, arith, select, find_first,
  member, All, mem-select, Bool-cases, inl, inr, Pairwise-take, ◌==◌,
}
use mail_router.Queue.Schema.{State, pending, in_flight, Row, QueueItem, can_take, has_id}
use mail_router.Queue.Sqlite.{World}
use mail_router.Queue.{mark_in_flight, ids}
use mail_router.Queue.Table.{IsTable}
use mail_router.Queue.Counts.{DifferentIds}
use mail_router.Queue.Items.{IsCopy, AreCopies}
use mail_router.Queue.Enqueue.{stamp}
use mail_router.Queue.Dequeue.{due_rows}
use mail_router.Queue.Delivery.{IsOrderBy, All-AreCopies, mem-due, member-ids}
use mail_router.Worker.Lifecycle.{Lives, IsLater, take, here, next}

abbrev pub Distinct : List QueueItem → Type 0
Distinct [] = Unit
Distinct (item ∷ items) = All (λ j. j.id ≢ item.id) items × Distinct items

-- The row with the item's id is in flight, and was attempted as often as the item says.
abbrev pub IsSent : QueueItem → Row → Type 0
IsSent item r =
    has_id item.id r ≡ true → (r.state ≡ in_flight) × (r.attempt_count ≡ item.attempt_count)

abbrev pub IsReady : List Row → QueueItem → Type 0
IsReady rows item = All (IsSent item) rows

pub find-none :
    (i : ℕ) (rs : List Row) {a : Row} → find_first (has_id i) rs ≡ none → Mem a rs → i ≢ a.id
find-none i [] h m = absurd (not-mem-nil m)
find-none i (r ∷ rs) {a} h m =
    Or.elim ¬_prop (eq-or-mem_of_mem-cons m) (λ same e. ground arith)
      (λ rest. find-none i rs {a = a} (ground arith) rest)

pub IsTable-DifferentIds : (top : ℕ) (rs : List Row) → IsTable top rs → DifferentIds rs
IsTable-DifferentIds top [] h = Pairwise.nil
IsTable-DifferentIds top (r ∷ rs) (_, _, no_id, _, rest) =
    Pairwise-cons.1 ((λ a m. find-none r.id rs no_id m), IsTable-DifferentIds top rs rest)

select-DifferentIds :
    (now : Text) (rs : List Row) → DifferentIds rs → DifferentIds (select (can_take now) rs)
select-DifferentIds now [] h = h
select-DifferentIds now (r ∷ rs) h =
    let (first, rest) = Pairwise-cons.0 h in
    elim (Bool-cases (can_take now r)) [
      | inl e ↦ rw e (
          Pairwise-cons.1
            ((λ a m. first a (mem-select (can_take now) rs m).0), select-DifferentIds now rs rest))
      | inr e ↦ rw e (select-DifferentIds now rs rest)
    ]

-- Rows of one id are one row, and agree in every column.
module _ {B : Type 0} (column : Row → B) (B_set : IsSet B) where
  pub same_column :
      (rs : List Row) {a b : Row}
      → DifferentIds rs
      → Mem a rs
      → Mem b rs
      → a.id ≡ b.id
      → column a ≡ column b
  same_column [] h m k e = absurd (not-mem-nil m)
  same_column (r ∷ rs) {a} {b} h m k e =
      let (first, rest) = Pairwise-cons.0 h in
      Or.elim (B_set _ _) (eq-or-mem_of_mem-cons m)
        (λ am.
          Or.elim (B_set _ _) (eq-or-mem_of_mem-cons k) (λ bm. ap column (am ∙ sym bm))
            (λ bm. absurd (first b bm (ap (λ (x : Row). x.id) (sym am) ∙ e))))
        (λ am.
          Or.elim (B_set _ _) (eq-or-mem_of_mem-cons k)
            (λ bm. absurd (first a am (ap (λ (x : Row). x.id) (sym bm) ∙ sym e)))
            (λ bm. same_column rs {a = a} {b = b} rest am bm e))

waiting : (now : Text) (r : Row) → can_take now r ≡ true → r.state ≡ pending
waiting now r h = ground arith

-- The rows of a batch, marked.
mark-IsReady :
    (taken : List ℕ) (item : QueueItem) (all : List Row) {r : Row}
    → DifferentIds all
    → Mem r all
    → IsCopy item r
    → member r.id taken ≡ true
    → (rs : List Row) → ((q : Row) → Mem q rs → Mem q all)
    → IsReady (map (mark_in_flight taken) rs) item
mark-IsReady taken item all d m c inside [] sub = tt
mark-IsReady taken item all {r} d m c inside (q ∷ rs) sub = (
  marked,
  mark-IsReady taken item all {r = r} d m c inside rs (λ p k. sub p (mem-cons_of_mem q k)),
)
  where
    attempts : q.id ≡ r.id → q.attempt_count ≡ r.attempt_count
    attempts e =
        same_column (λ (x : Row). x.attempt_count) ℕ_set all {a = q} {b = r} d (sub q mem-cons_self)
          m e

    marked : IsSent item (mark_in_flight taken q)
    marked = ground (arith, attempts)

AreCopies-Distinct :
    (items : List QueueItem) (rows : List Row)
    → AreCopies items rows
    → DifferentIds rows
    → Distinct items
AreCopies-Distinct [] [] c d = tt
AreCopies-Distinct [] (r ∷ rs) c d = absurd c
AreCopies-Distinct (i ∷ is) [] c d = absurd c
AreCopies-Distinct (i ∷ is) (r ∷ rs) (c, cs) d =
    let (first, rest) = Pairwise-cons.0 d in
    (
      All-AreCopies (λ j. j.id ≢ i.id) is rs cs (λ j q m k e. first q m (sym c.0 ∙ sym e ∙ k.0)),
      AreCopies-Distinct is rs cs rest,
    )

pub due-DifferentIds :
    (now : Text) (limit : ℕ) (w : World)
    → IsOrderBy w.env
    → DifferentIds w.rows
    → DifferentIds (due_rows now limit w)
due-DifferentIds now limit w o different = Pairwise-take limit _ (
    Perm.pairwise (λ a b. ¬_prop) (λ a b h e. h (sym e))
      (Perm.symm (o.perm (select (can_take now) w.rows)))
      (select-DifferentIds now w.rows different))

-- A batch that copies the due rows of a table is ready, and its items differ.
pub batch-IsReady :
    (limit : ℕ) (w : World) (items : List QueueItem)
    → IsOrderBy w.env
    → DifferentIds w.rows
    → AreCopies items (due_rows (stamp w) limit w)
    → Distinct items
      × All (IsReady (map (mark_in_flight (ids (due_rows (stamp w) limit w))) w.rows)) items
batch-IsReady limit w items o different copies =
    let due = due_rows (stamp w) limit w in
    (
      AreCopies-Distinct items due copies (due-DifferentIds (stamp w) limit w o different),
      All-AreCopies (IsReady (map (mark_in_flight (ids due)) w.rows)) items due copies
          (λ item r m c.
            mark-IsReady (ids due) item w.rows {r = r} different (mem-due (stamp w) limit w o m).0 c
              (member-ids due {r = r} m) w.rows (λ q k. k)),
    )

mark-IsLater :
    (most : ℕ) (taken : List ℕ) (r : Row)
    → (member r.id taken ≡ true → r.state ≡ pending)
    → IsLater most r (mark_in_flight taken r)
mark-IsLater most taken r waits = elim (Bool-cases (member r.id taken)) [
  | inr e ↦ rw e (record { id = refl; mail = refl; steps = here })
  | inl e ↦ rw e (record { id = refl; mail = refl; steps = rw (waits e) (next here take) })
]

ids-member : (rs : List Row) (i : ℕ) → member i (ids rs) ≡ true → (r : Row) × Mem r rs × (r.id ≡ i)
ids-member [] i h = cc
ids-member (q ∷ rs) i h = elim (Bool-cases (i == q.id)) [
  | inl e ↦ (q, mem-cons_self, ground arith)
  | inr e ↦ let (r, m, same) = ids-member rs i (rw e at h) in (r, mem-cons_of_mem q m, same)
]

pub State-set : IsSet State
State-set = hlevel

mark-Lives :
    (most : ℕ) (taken : List ℕ) (rs : List Row)
    → ((q : Row) → Mem q rs → member q.id taken ≡ true → q.state ≡ pending)
    → Lives most rs (map (mark_in_flight taken) rs)
mark-Lives most taken [] waits = tt
mark-Lives most taken (r ∷ rs) waits = (
  mark-IsLater most taken r (waits r mem-cons_self),
  mark-Lives most taken rs (λ q m. waits q (mem-cons_of_mem r m)),
)

-- Taking a batch sends the mails of its rows, and those waited.
pub batch-Lives :
    (most limit : ℕ) (w : World)
    → IsOrderBy w.env
    → DifferentIds w.rows
    → Lives most w.rows (map (mark_in_flight (ids (due_rows (stamp w) limit w))) w.rows)
batch-Lives most limit w o different = mark-Lives most (ids due) w.rows waits
  where
    due : List Row
    due = due_rows (stamp w) limit w

    waits : (q : Row) → Mem q w.rows → member q.id (ids due) ≡ true → q.state ≡ pending
    waits q m h =
        let (r, k, same) = ids-member due q.id h in
        let (inside, takes) = mem-due (stamp w) limit w o k in
        same_column (λ (x : Row). x.state) State-set w.rows {a = q} {b = r} different m inside
          (sym same)
        ∙ waiting (stamp w) r takes

-- ===== src/Queue/Delivery.antt =====
-- Which items `dequeue_batch` hands out, in which order, and that none is handed out twice.
use mathlib.Core.Bool.{Bool-set}
use mathlib.Core.List.{
  Mem, Perm, Pairwise, mem-cons_self, mem-cons_of_mem, not-mem-nil, eq-or-mem_of_mem-cons,
  exists_of_mem-map,
}
use mathlib.Core.List.Perm
use mathlib.Core.Logic.Or
use mathlib.Core.Logic.{∥∥₁_elim}
use mail_router.Prelude.{
  if◌then◌else◌, ℕ, ◌≤◌, ◌<◌, ◌≡◌, refl, ◌∙◌, ap, sym, subst, true, false, Text, List, [], ◌∷◌, map,
  arith, select, length, member, All, mem-select, select-mem, mem-take, take_of_length-lt,
  length-take-le, All-map, Pairwise-take, text_le,
}
use mail_router.Queue.Schema.{in_flight, Row, QueueItem, can_take}
use mail_router.Queue.Sqlite.{Environment, World, Result, ok, raise}
use mail_router.Queue.{dequeue_batch, mark_in_flight, ids}
use mail_router.Queue.Enqueue.{stamp}
use mail_router.Queue.Items.{IsCopy, AreCopies}
use mail_router.Queue.Dequeue.{due_rows}
use mail_router.Queue.Batch.{IsBatch, dequeue_batch-IsBatch}

-- `ORDER BY received_at`: the same rows, none before one that was received earlier.
pub record IsOrderBy (env : Environment) : Type 0 where
  pub perm : (rs : List Row) → Perm (env.order_by_received rs) rs
  pub sorted :
      (rs : List Row)
      → Pairwise (λ a b. text_le a.received_at b.received_at ≡ true) (env.order_by_received rs)

abbrev pub item_ids : List QueueItem → List ℕ
item_ids items = map (λ item. item.id) items

pub ids-AreCopies :
    (items : List QueueItem) (rows : List Row) → AreCopies items rows → item_ids items ≡ ids rows
ids-AreCopies [] [] h = refl
ids-AreCopies [] (r ∷ rs) h = absurd h
ids-AreCopies (i ∷ is) [] h = absurd h
ids-AreCopies (i ∷ is) (r ∷ rs) (c, cs) = cc (c.0, ids-AreCopies is rs cs)

pub length-AreCopies :
    (items : List QueueItem) (rows : List Row) → AreCopies items rows → length items ≡ length rows
length-AreCopies [] [] h = refl
length-AreCopies [] (r ∷ rs) h = absurd h
length-AreCopies (i ∷ is) [] h = absurd h
length-AreCopies (i ∷ is) (r ∷ rs) (c, cs) = omega (arith, length-AreCopies is rs cs)

pub All-AreCopies :
    (P : QueueItem → Type 0) (items : List QueueItem) (rows : List Row)
    → AreCopies items rows
    → ((item : QueueItem) (r : Row) → Mem r rows → IsCopy item r → P item)
    → All P items
All-AreCopies P [] [] h f = tt
All-AreCopies P [] (r ∷ rs) h f = absurd h
All-AreCopies P (i ∷ is) [] h f = absurd h
All-AreCopies P (i ∷ is) (r ∷ rs) (c, cs) f =
    (f i r mem-cons_self c, All-AreCopies P is rs cs (λ item q m. f item q (mem-cons_of_mem r m)))

pub mem-due :
    (now : Text) (limit : ℕ) (w : World) {r : Row}
    → IsOrderBy w.env
    → Mem r (due_rows now limit w)
    → Mem r w.rows × (can_take now r ≡ true)
mem-due now limit w o m =
    mem-select (can_take now) w.rows
      ((Perm.mem_iff (o.perm (select (can_take now) w.rows))).0 (mem-take limit _ m))

-- What a batch says of the item: it copies a row of `w` that waits and is due.
abbrev pub IsDueIn : World → QueueItem → Type 0
IsDueIn w item = (r : Row) × Mem r w.rows × IsCopy item r × (can_take (stamp w) r ≡ true)

-- The rows with these ids are in flight, and the others as they were.
abbrev pub marked : List ℕ → List Row → List Row
marked taken rows = map (λ r. if member r.id taken then record r { state = in_flight } else r) rows

abbrev IsGoodBatch : ℕ → World → Result (List QueueItem) × World → Type 0
IsGoodBatch limit w (ok items, w') =
    (length items ≤ limit) × All (IsDueIn w) items × (w'.rows ≡ marked (item_ids items) w.rows)
IsGoodBatch limit w (raise e, w') = Unit

good :
    (limit : ℕ) (w : World) (a : Result (List QueueItem) × World)
    → IsOrderBy w.env
    → IsBatch limit w a
    → IsGoodBatch limit w a
good limit w (raise e, w') o h = tt
good limit w (ok items, w') o (copies, rows, _, _, _) = (
  omega (
    arith,
    length-AreCopies items _ copies,
    length-take-le limit (w.env.order_by_received (select (can_take (stamp w)) w.rows)),
  ),
  All-AreCopies (IsDueIn w) items _ copies
      (λ item r m c. let (m', e) = mem-due (stamp w) limit w o m in (r, m', c, e)),
  rows ∙ ap (λ l. map (mark_in_flight l) w.rows) (sym (ids-AreCopies items _ copies)),
)

-- A batch is no longer than the limit, each item copies a pending row that is due, and after it the
-- rows with the ids of the batch are in flight and all others as they were.
pub dequeue_batch-takes :
    (limit : ℕ) (w : World) (items : List QueueItem)
    → IsOrderBy w.env
    → (dequeue_batch limit w).0 ≡ ok items
    → (length items ≤ limit)
      × All (IsDueIn w) items
      × ((dequeue_batch limit w).1.rows ≡ marked (item_ids items) w.rows)
dequeue_batch-takes limit w items o e =
    subst (λ r. IsGoodBatch limit w (r, (dequeue_batch limit w).1)) e
      (good limit w (dequeue_batch limit w) o (dequeue_batch-IsBatch limit w))

marked_not_taken :
    (taken : List ℕ) (now : Text) (r : Row)
    → can_take now (mark_in_flight taken r) ≡ true
    → member (mark_in_flight taken r).id taken ≡ false
marked_not_taken taken now r h = ground arith

fresh :
    (taken : List ℕ) (now : Text) (w w' : World) (item : QueueItem)
    → w'.rows ≡ map (mark_in_flight taken) w.rows
    → (r : Row) → Mem r w'.rows
    → IsCopy item r
    → can_take now r ≡ true
    → member item.id taken ≡ false
fresh taken now w w' item rows r m c h =
    ∥∥₁_elim (exists_of_mem-map (subst (Mem r) rows m)) (Bool-set _ _) (λ (q, _, e).
      ap (λ i. member i taken) (c.0 ∙ ap (λ (x : Row). x.id) (sym e))
      ∙ marked_not_taken taken now q (subst (λ x. can_take now x ≡ true) (sym e) h))

-- Two batches, one after the other, have no item in common.
pub dequeue_batch-disjoint :
    (l l' : ℕ) (w : World) (items items' : List QueueItem)
    → IsOrderBy w.env
    → IsOrderBy (dequeue_batch l w).1.env
    → (dequeue_batch l w).0 ≡ ok items
    → (dequeue_batch l' (dequeue_batch l w).1).0 ≡ ok items'
    → All (λ item. member item.id (item_ids items) ≡ false) items'
dequeue_batch-disjoint l l' w items items' o o' e e' =
    let w' = (dequeue_batch l w).1 in
    let (_, _, rows) = dequeue_batch-takes l w items o e in
    let (_, due, _) = dequeue_batch-takes l' w' items' o' e' in
    All-map items' (λ item d. fresh (item_ids items) (stamp w') w w' item rows d.0 d.1 d.2 d.3) due

abbrev IsSortedBatch : World → Result (List QueueItem) × World → Type 0
IsSortedBatch w (ok items, w') =
    (rows : List Row) × AreCopies items rows
    × Pairwise (λ a b. text_le a.received_at b.received_at ≡ true) rows
IsSortedBatch w (raise e, w') = Unit

sorted_batch :
    (limit : ℕ) (w : World) (a : Result (List QueueItem) × World)
    → IsOrderBy w.env
    → IsBatch limit w a
    → IsSortedBatch w a
sorted_batch limit w (raise e, w') o h = tt
sorted_batch limit w (ok items, w') o (copies, _, _, _, _) = (
  due_rows (stamp w) limit w,
  copies,
  Pairwise-take limit _ (o.sorted (select (can_take (stamp w)) w.rows)),
)

abbrev LeavesNone : ℕ → World → Result (List QueueItem) × World → Type 0
LeavesNone limit w (ok items, w') =
    length items < limit → (r : Row) → Mem r w'.rows → can_take (stamp w) r ≡ false
LeavesNone limit w (raise e, w') = Unit

pub member-ids : (rs : List Row) {r : Row} → Mem r rs → member r.id (ids rs) ≡ true
member-ids [] m = absurd (not-mem-nil m)
member-ids (q ∷ rs) {r} m =
    Or.elim (Bool-set _ _) (eq-or-mem_of_mem-cons m) (λ same. ground arith)
      (λ rest. ground (arith, member-ids rs {r = r} rest))

marked_none :
    (taken : List ℕ) (now : Text) (q : Row)
    → (can_take now q ≡ true → member q.id taken ≡ true)
    → can_take now (mark_in_flight taken q) ≡ false
marked_none taken now q h = ground arith

due-member :
    (limit : ℕ) (w : World)
    → IsOrderBy w.env
    → length (due_rows (stamp w) limit w) < limit
    → (q : Row) → Mem q w.rows
    → can_take (stamp w) q ≡ true
    → member q.id (ids (due_rows (stamp w) limit w)) ≡ true
due-member limit w o short q inside h =
    let sorted = w.env.order_by_received (select (can_take (stamp w)) w.rows) in
    rw (take_of_length-lt limit sorted short) (
      member-ids sorted (
        (Perm.mem_iff (o.perm (select (can_take (stamp w)) w.rows))).1
          (select-mem (can_take (stamp w)) w.rows inside h)))

leaves_none :
    (limit : ℕ) (w : World) (a : Result (List QueueItem) × World)
    → IsOrderBy w.env
    → IsBatch limit w a
    → LeavesNone limit w a
leaves_none limit w (raise e, w') o h = tt
leaves_none limit w (ok items, w') o (copies, rows, _, _, _) = λ short r m.
    let short' : length (due_rows (stamp w) limit w) < limit =
      omega (arith, length-AreCopies items _ copies) in
    ∥∥₁_elim (exists_of_mem-map (subst (Mem r) rows m)) (Bool-set _ _) (λ (q, inside, e).
      subst (λ x. can_take (stamp w) x ≡ false) e
        (marked_none (ids (due_rows (stamp w) limit w)) (stamp w) q
          (due-member limit w o short' q inside)))

-- The items of a batch copy rows that stand in the order in which they were received.
dequeue_batch-sorted :
    (limit : ℕ) (w : World) (items : List QueueItem)
    → IsOrderBy w.env
    → (dequeue_batch limit w).0 ≡ ok items
    → (rows : List Row) × AreCopies items rows
      × Pairwise (λ a b. text_le a.received_at b.received_at ≡ true) rows
dequeue_batch-sorted limit w items o e =
    subst (λ r. IsSortedBatch w (r, (dequeue_batch limit w).1)) e
      (sorted_batch limit w (dequeue_batch limit w) o (dequeue_batch-IsBatch limit w))

-- If a batch is shorter than its limit, then after it no row is left that waits and was due when the
-- batch was taken.
pub dequeue_batch-leaves_none :
    (limit : ℕ) (w : World) (items : List QueueItem)
    → IsOrderBy w.env
    → (dequeue_batch limit w).0 ≡ ok items
    → length items < limit
    → (r : Row) → Mem r (dequeue_batch limit w).1.rows
    → can_take (stamp w) r ≡ false
dequeue_batch-leaves_none limit w items o e =
    subst (λ r. LeavesNone limit w (r, (dequeue_batch limit w).1)) e
      (leaves_none limit w (dequeue_batch limit w) o (dequeue_batch-IsBatch limit w))

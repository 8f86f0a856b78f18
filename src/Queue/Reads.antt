-- ===== src/Queue/Reads.antt =====
-- The methods that the command line calls: two that only read, and the prune.
use mathlib.Core.List.{Mem}
use mail_router.Prelude.{
  ℕ, ◌+◌, ◌≡◌, refl, false, not, List, [], ◌∷◌, select, take, leb, count, length, select-mem, arith,
  Bool-cases, inl, inr, Bool,
}
use mail_router.Queue.Schema.{dead_letter, has_state, delivered, Row, QueueItem, state_eq}
use mail_router.Queue.Sqlite.{World, Result, ok, raise, is_down, next_tick}
use mail_router.Queue.{list_dead_letters, prune_delivered, rows_to_items, sort_by}
use mail_router.Queue.Items.{IsRead, rows_to_items-IsRead}

read-same :
    (rs : List Row) (w : World) (a : Result (List QueueItem) × World)
    → IsRead rs w a
    → a.1.rows ≡ w.rows
read-same rs w (ok items, v) (_, same) = same.rows
read-same rs w (raise e, v) h = absurd h

rows_to_items-rows : (rs : List Row) (w : World) → (rows_to_items rs w).1.rows ≡ w.rows
rows_to_items-rows rs w = read-same rs w (rows_to_items rs w) (rows_to_items-IsRead rs w)

pub list_dead_letters-same : (limit : ℕ) (w : World) → (list_dead_letters limit w).1.rows ≡ w.rows
unfolding list_dead_letters
list_dead_letters-same limit w = elim (Bool-cases (is_down w)) [
  | inl f ↦ rw f refl
  | inr f ↦ rw f (
      rows_to_items-rows
        (take limit (sort_by (λ a b. leb b.id a.id) (select (has_state dead_letter) w.rows)))
        (next_tick w))
]

-- Rows that are not delivered are kept, and the number returned is that of the rows that are gone.
abbrev pub IsPruned : World → Result ℕ × World → Type 0
IsPruned w (ok n, v) =
    (length w.rows ≡ n + length v.rows)
    × ((r : Row) → Mem r w.rows → state_eq r.state delivered ≡ false → Mem r v.rows)
IsPruned w (raise e, v) = v.rows ≡ w.rows

count-select :
    (p : Row → Bool) (rs : List Row) → length rs ≡ count p rs + length (select (λ r. not (p r)) rs)
count-select p [] = refl
count-select p (r ∷ rs) = ground (arith, count-select p rs)

pub prune_delivered-IsPruned : (days : ℕ) (w : World) → IsPruned w (prune_delivered days w)
unfolding prune_delivered
prune_delivered-IsPruned days w = elim (Bool-cases (is_down (next_tick w))) [
  | inl f ↦ rw f refl
  | inr f ↦ rw f (count-select _ w.rows, λ r m h. select-mem _ w.rows m (ground arith))
]

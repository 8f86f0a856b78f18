-- ===== src/Queue/Batch.antt =====
-- What `Queue.dequeue_batch` returns and leaves behind.
use mail_router.Prelude.{ℕ, ◌≡◌, ◌∙◌, ap, subst, none, List, map}
use mail_router.Queue.Schema.{Row, QueueItem}
use mail_router.Queue.Sqlite.{World, Result, ok, raise, database, next_tick, continue}
use mail_router.Queue.{dequeue_batch, dequeue_rows, rows_to_items, ids, mark_in_flight}
use mail_router.Queue.Enqueue.{stamp}
use mail_router.Queue.Items.{AreCopies, IsRead, rows_to_items-IsRead}
use mail_router.Queue.Dequeue.{IsDequeued, IsUndone, due_rows, dequeue_rows-IsDequeued}

abbrev pub IsBatch : ℕ → World → Result (List QueueItem) × World → Type 0
IsBatch limit w (ok items, w') =
    AreCopies items (due_rows (stamp w) limit w)
    × (w'.rows ≡ map (mark_in_flight (ids (due_rows (stamp w) limit w))) w.rows)
    × (w'.sequence ≡ w.sequence)
    × (w.saved ≡ none)
    × (w'.saved ≡ none)
IsBatch limit w (raise e, w') = (e ≡ database) × IsUndone w w'

read-IsBatch :
    (limit : ℕ) (w : World) (a : Result (List Row) × World)
    → IsDequeued (stamp w) limit (next_tick w) a
    → IsBatch limit w (continue a.0 rows_to_items a.1)
read-IsBatch limit w (raise e, v) h = h
read-IsBatch limit w (ok rows, v) (taken, marked, same, closed, closed') =
    last (rows_to_items rows v) (rows_to_items-IsRead rows v)
  where
    last : (b : Result (List QueueItem) × World) → IsRead rows v b → IsBatch limit w b
    last (ok items, u) (copies, t) = (
      subst (AreCopies items) taken copies,
      t.rows ∙ marked ∙ ap (λ l. map (mark_in_flight (ids l)) w.rows) taken,
      t.sequence ∙ same,
      closed,
      t.saved ∙ closed',
    )
    last (raise e, u) h = absurd h

-- `dequeue_batch` either returns copies of the first `limit` rows that wait and are due, in SQLite's
-- order by reception, has set exactly them in flight and has ended its transaction; or it raises the
-- database's error, and then the table is as it was, or the marked rows stand in a transaction that
-- is still open and that goes back to the table as it was.
pub dequeue_batch-IsBatch : (limit : ℕ) (w : World) → IsBatch limit w (dequeue_batch limit w)
unfolding dequeue_batch
dequeue_batch-IsBatch limit w =
    read-IsBatch limit w (dequeue_rows (stamp w) limit (next_tick w))
      (dequeue_rows-IsDequeued (stamp w) limit (next_tick w))

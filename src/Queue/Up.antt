-- ===== src/Queue/Up.antt =====
-- The methods that a worker calls, on a connection that is open and whose statements do not raise.
use mail_router.Prelude.{
  ℕ, ◌+◌, ◌≡◌, refl, false, Text, Option, none, some, List, [], ◌∷◌, take, select,
}
use mail_router.Clock.{DateTime}
use mail_router.Queue.Sqlite.{World, Result, ok, raise, next_tick}
use mail_router.Queue.Enqueue.{stamp}
use mail_router.Queue.Items.{IsRead, rows_to_items-IsRead}
use mail_router.Queue.Schema.{State, Row, QueueItem, can_take}
use mail_router.Queue.Updates.{delivered_row, at_id}
use mail_router.Queue.{
  mark_delivered, mark_retry, mark_dead_letter, stats, take_rows, dequeue_rows, dequeue_batch,
  rows_to_items,
}

pub record IsUp (w : World) : Type 0 where
  pub is_open : w.closed ≡ false
  pub answers : (n : ℕ) → w.env.fails n ≡ false

pub mark_delivered-returns :
    (id : ℕ) (mid : Option Text) (w : World) → IsUp w → (mark_delivered id mid w).0 ≡ ok tt
unfolding mark_delivered
mark_delivered-returns id mid w up = rw (up.is_open, up.answers (w.tick + 1)) refl

-- The row is written.
pub mark_delivered-writes :
    (id : ℕ) (mid : Option Text) (w : World)
    → IsUp w
    → (at : Text) × (mark_delivered id mid w ≡ (
      ok tt,
      record w { rows = at_id id (delivered_row at mid) w.rows; tick = w.tick + 1 + 1 },
    ))
unfolding mark_delivered
mark_delivered-writes id mid w up = rw (up.is_open, up.answers (w.tick + 1)) (_, refl)

pub mark_retry-returns :
    (id n : ℕ) (at : DateTime) (e : Text) (w : World) → IsUp w → (mark_retry id n at e w).0 ≡ ok tt
unfolding mark_retry
mark_retry-returns id n at e w up = rw (up.is_open, up.answers w.tick) refl

pub mark_dead_letter-returns :
    (id : ℕ) (reason : Text) (w : World) → IsUp w → (mark_dead_letter id reason w).0 ≡ ok tt
unfolding mark_dead_letter
mark_dead_letter-returns id reason w up = rw (up.is_open, up.answers w.tick) refl

pub stats-returns : (w : World) → IsUp w → (counts : State → Option ℕ) × ((stats w).0 ≡ ok counts)
unfolding stats
stats-returns w up = rw (up.is_open, up.answers w.tick) (_, refl)

take_rows-returns : (rows : List Row) (w : World) → IsUp w → (take_rows rows w).0 ≡ ok rows
take_rows-returns [] w up = rw (up.is_open, up.answers w.tick) refl
take_rows-returns (r ∷ rs) w up = rw (up.is_open, up.answers w.tick, up.answers (w.tick + 1)) refl

dequeue_rows-returns :
    (now : Text) (limit : ℕ) (w : World)
    → IsUp w
    → w.saved ≡ none
    → (rows : List Row) × ((dequeue_rows now limit w).0 ≡ ok rows)
unfolding dequeue_rows
dequeue_rows-returns now limit w up closed =
    rw (closed, up.is_open, up.answers w.tick, up.answers (w.tick + 1))
      (let rows = take limit (w.env.order_by_received (select (can_take now) w.rows)) in
        let v : World = record w { saved = some w.rows; closed = false; tick = w.tick + 1 + 1 } in
        (rows, rw (take_rows-returns rows v (record { is_open = refl; answers = up.answers }))))

-- A batch is taken, where no transaction is open.
pub dequeue_batch-returns :
    (limit : ℕ) (w : World)
    → IsUp w
    → w.saved ≡ none
    → (items : List QueueItem) × ((dequeue_batch limit w).0 ≡ ok items)
unfolding dequeue_batch
dequeue_batch-returns limit w up closed =
    let (rows, taken) =
      dequeue_rows-returns (stamp w) limit (next_tick w)
        (record { is_open = up.is_open; answers = up.answers }) closed in
    let v = (dequeue_rows (stamp w) limit (next_tick w)).1 in
    rw taken (read rows v (rows_to_items rows v) (rows_to_items-IsRead rows v))
  where
    read :
        (rows : List Row) (v : World) (a : Result (List QueueItem) × World)
        → IsRead rows v a
        → (items : List QueueItem) × (a.0 ≡ ok items)
    read rows v (ok items, u) h = (items, refl)
    read rows v (raise e, u) h = absurd h

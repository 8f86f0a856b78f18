-- ===== src/Worker/Drained.antt =====
-- `Worker.run_forever` in a world that does not fail.
pub mod Tests
use mail_router.Prelude.{
  ℕ, ◌+◌, ◌*◌, ◌≤◌, ◌≡◌, refl, ◌∙◌, ap, sym, subst, false, none, List, [], ◌∷◌, map, arith, count,
  if◌then◌else◌,
}
use mail_router.Exec.{Result, ok}
use mail_router.Queue.{requeue_in_flight, restored}
use mail_router.Queue.Schema.{State, pending, in_flight, delivered, dead_letter, Row, has_state}
use mail_router.Queue.Sqlite.{World}
use mail_router.Queue.Invariant.{IsValid}
use mail_router.Queue.Delivery.{IsOrderBy}
use mail_router.Queue.Updates.{requeue_in_flight-saved}
use mail_router.Queue.Steady.{IsSteady-env, requeue_in_flight-IsSteady}
use mail_router.Queue.Up.{IsUp}
use mail_router.Queue.Counts.{IsOld}
use mail_router.Queue.Requeued.{requeue_in_flight-Moves}
use mail_router.Worker.{Worker, run_forever, ticks}
use mail_router.Worker.Ready.{IsTable-DifferentIds}
use mail_router.Worker.Tick.{committed}
use mail_router.Worker.Run.{requeued-IsValid}
use mail_router.Worker.Deliver.{AcceptsAll}
use mail_router.Worker.Round.{steady-IsUp}
use mail_router.Worker.Drain.{AreSound}
use mail_router.Worker.Calm.{IsCalm}
use mail_router.Worker.Emptied.{ticks-IsEmptied}

-- The rows that wait or are in flight.
abbrev pub open_rows : List Row → ℕ
open_rows rows = count (has_state pending) rows + count (has_state in_flight) rows

-- The queue holds no mail any more that is to be sent: those it held are delivered, by one POST each.
pub record IsDrained (s : Worker) (a : Result Unit × Worker) : Type 0 where
  pub returns : a.0 ≡ ok tt
  pub posts : a.1.posts ≡ s.posts + open_rows s.queue.rows
  pub none_left : open_rows (committed a.1.queue) ≡ 0
  pub delivered :
      count (has_state delivered) (committed a.1.queue)
      ≡ count (has_state delivered) s.queue.rows + open_rows s.queue.rows
  pub no_new_dead : IsOld dead_letter s.queue.rows (committed a.1.queue)

-- In a world that does not fail, `run_forever` empties the queue: where the connection is open and no
-- statement raises, the server accepts every POST, the lookup file is not reloaded, and every mail
-- that waits or is in flight at first can be parsed, has its data source in the table and is not put
-- off, then after enough rounds for their number, at `batch_size` a round, no exception has left the
-- loop and no mail waits or is in flight: exactly those mails have become delivered, with one POST for
-- each, and no mail has become a dead letter. Ids and keys in the table are unique, no transaction is
-- open at first, and SQLite's order is one by reception.
pub run_forever-IsDrained :
    (n : ℕ) (s : Worker)
    → IsOrderBy s.queue.env
    → IsUp s.queue
    → IsValid s.queue
    → s.queue.saved ≡ none
    → s.lookup.table.auto_reload ≡ false
    → AreSound s.email s.lookup (requeue_in_flight s.queue).1.rows
    → AcceptsAll s.python s.post
    → open_rows s.queue.rows ≤ n * s.config.batch_size
    → IsDrained s (run_forever n s)
unfolding run_forever
run_forever-IsDrained n s order up valid closed static sound taking enough =
    let w = (requeue_in_flight s.queue).1 in
    let t = record s { queue = w } in
    let (returned, moved, old) = requeue_in_flight-Moves s.queue up in
    let calm : IsCalm t = record {
      order =
          subst IsOrderBy (sym (IsSteady-env requeue_in_flight requeue_in_flight-IsSteady s.queue))
            order;
      up = steady-IsUp requeue_in_flight requeue_in_flight-IsSteady s.queue up;
      closed = requeue_in_flight-saved s.queue ∙ closed;
      different = IsTable-DifferentIds w.sequence w.rows (requeued-IsValid s.queue valid).table;
      none_in_flight = omega (arith, moved in_flight);
      sound = sound;
      static = static;
      taking = taking;
    } in
    let e = ticks-IsEmptied n t calm (omega (arith, moved pending, enough)) in
    let v = (ticks n t).1.queue in
    let same : committed v ≡ v.rows = ap (λ p. restored p v.rows) e.closed in
    rw returned (record {
      returns = e.returns;
      posts = omega (arith, e.posts, moved pending);
      none_left = rw same (omega (arith, e.moves pending, e.moves in_flight, moved in_flight));
      delivered = rw same (omega (arith, e.moves delivered, moved delivered, moved pending));
      no_new_dead = rw same (λ k h. old k (e.old k h));
    })

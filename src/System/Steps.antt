-- ===== src/System/Steps.antt =====
-- The receiver's process and the worker's on one queue file, and the steps of each.
use mail_router.Prelude.{◌≡◌, Option, none, some, List, [], ◌∷◌, true}
use mail_router.Queue.{requeue_in_flight}
use mail_router.Queue.Schema.{Row}
use mail_router.Queue.Sqlite.{World}
use mail_router.Queue.Table.{IsTable}
use mail_router.Queue.Invariant.{restart}
use mail_router.Queue.Delivery.{IsOrderBy}
use mail_router.Receiver.{Envelope, Handler, handle_data}
use mail_router.Worker.{Worker, tick}
use mail_router.Worker.Tick.{committed}

-- The two processes; each has its own connection to the file.
pub record Router : Type 0 where
  pub handler : Handler
  pub worker : Worker

-- A step of one of them: a mail is handled, the worker makes a round, or its process starts anew.
pub data Event : Type 0 where
  receives : Envelope → Event
  works : Event
  starts : Event

-- The file as the other connection finds it.
abbrev pub seen_by_worker : World → World → World
seen_by_worker w v = record v { rows = w.rows; sequence = w.sequence }

abbrev seen_by_handler : World → World → World
seen_by_handler v w = record w { rows = committed v }

-- While the worker has a transaction open, no statement of the receiver goes through.
abbrev pub locked : Handler → Handler
locked h = record h { queue = record h.queue { env = record h.queue.env { fails = λ _. true } } }

abbrev unlocked : Handler → Handler → Handler
unlocked before h = record h { queue = record h.queue { env = before.queue.env } }

abbrev pub receive : Option (List Row) → Envelope → Router → Router
receive none envelope r =
    let h = (handle_data envelope r.handler).1 in
    record {
      handler = h;
      worker = record r.worker { queue = seen_by_worker h.queue r.worker.queue };
    }
receive (some before) envelope r = record r {
  handler = unlocked r.handler (handle_data envelope (locked r.handler)).1;
}

abbrev with_worker : Worker → Router → Router
with_worker v r = record {
  handler = record r.handler { queue = seen_by_handler v.queue r.handler.queue };
  worker = v;
}

unfoldable pub after_event : Event → Router → Router
after_event (receives envelope) r = receive r.worker.queue.saved envelope r
after_event works r = with_worker (tick r.worker).1 r
after_event starts r =
    with_worker
      (record r.worker {
        queue = (requeue_in_flight (restart r.worker.queue.env r.worker.queue)).1;
      })
      r

unfoldable pub after_events : List Event → Router → Router
after_events [] r = r
after_events (e ∷ es) r = after_events es (after_event e r)

-- No operation on the table can be seen half done, and the table is one with unique ids and keys.
pub record IsShared (r : Router) : Type 0 where
  pub order : IsOrderBy r.worker.queue.env
  pub same : r.handler.queue.rows ≡ committed r.worker.queue
  pub table : IsTable r.handler.queue.sequence r.handler.queue.rows
  pub none_open : r.handler.queue.saved ≡ none

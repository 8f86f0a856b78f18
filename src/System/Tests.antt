-- ===== src/System/Tests.antt =====
-- A mail for two mailboxes and a foreign recipient, and three rounds of the worker.
use mail_router.Prelude.{◌≤◌, ◌*◌, refl, codes, arith, List, [], ◌∷◌}
use mail_router.Queue.Sorting.{sort_by-perm, sort_by-IsSorted}
use mail_router.Queue.Invariant.{IsValid}
use mail_router.Worker.{Worker, run_forever}
use mail_router.Worker.Tick.{committed}
use mail_router.Worker.Tests.{sorted_worker}
use mail_router.Lookup.{allowed_domains, resolve}
use mail_router.Address.{parse_recipient}
use mail_router.Queue.{enqueue, requeue_in_flight}
use mail_router.Parser.{parse_eml}
use mail_router.Worker.Drain.{AreSound}
use mail_router.Worker.Drained.{open_rows}
use mail_router.Worker.Drained.Tests.{delivering_worker, delivering-AcceptsAll}
use mail_router.Receiver.{handle_rcpt, handle_data}
use mail_router.Receiver.Reloads.{StoodOrNew, AreServed}
use mail_router.Receiver.Accept.{CameFrom}
use mail_router.Receiver.Session.{converse, AreAnswered}
use mail_router.Receiver.Tests.{
  addresses, fresh, replies, conversed, handler, envelope, found, answered,
}
use mail_router.System.Steps.{
  Router, Event, receives, works, starts, after_event, after_events, IsShared,
}
use mail_router.System.Interleave.{after_events-IsKept}
use mail_router.System.{IsKept, IsSent, accepted-IsSafe, converse-IsSent}

abbrev started : Worker
started = record sorted_worker {
  queue = record sorted_worker.queue {
    rows = (handle_data envelope handler).1.queue.rows;
    sequence = 2;
  };
}

started-IsValid : IsValid started.queue
unfolding handle_data allowed_domains parse_recipient enqueue
started-IsValid = record {
  table = (omega arith, omega arith, refl, refl, (omega arith, omega arith, refl, refl, tt));
  snapshot = tt;
}

accepted-IsSafe_example :
    AreServed b'<'
      (codes "m1>")
      envelope
      handler
      (λ k rows.
        IsKept
          (StoodOrNew b'<' (codes "m1>") envelope handler [] envelope.rcpt_tos)
          k
          rows
          (committed (run_forever 3 started).1.queue))
      (handle_data envelope handler).1.queue.rows
      envelope.rcpt_tos
      handler.lookup
accepted-IsSafe_example =
    accepted-IsSafe handler envelope b'<' (codes "m1>") 3 started found answered refl
      (record { perm = sort_by-perm; sorted = sort_by-IsSorted }) started-IsValid refl

-- The same after RCPT, with a server that takes every mail.
abbrev delivering : Worker
delivering = record delivering_worker {
  queue = record delivering_worker.queue {
    rows = (converse addresses fresh handler).1.queue.rows;
    sequence = 2;
  };
}

delivering-IsValid : IsValid delivering.queue
unfolding converse handle_rcpt resolve handle_data allowed_domains parse_recipient enqueue
delivering-IsValid = record {
  table = (omega arith, omega arith, refl, refl, (omega arith, omega arith, refl, refl, tt));
  snapshot = tt;
}

delivering-AreSound :
    AreSound delivering.email delivering.lookup (requeue_in_flight delivering.queue).1.rows
unfolding converse handle_rcpt handle_data allowed_domains parse_recipient enqueue requeue_in_flight
    resolve parse_eml
delivering-AreSound = (refl, (refl, tt))

few : open_rows delivering.queue.rows ≤ 1 * delivering.config.batch_size
unfolding converse handle_rcpt resolve handle_data allowed_domains parse_recipient enqueue
few = omega arith

converse-IsSent_example :
    AreAnswered b'<'
      (codes "m1>")
      fresh
      handler
      (λ k.
        IsSent
          (CameFrom b'<' (codes "m1>") fresh handler addresses)
          k
          delivering.queue.rows
          (committed (run_forever 1 delivering).1.queue))
      addresses
      replies
converse-IsSent_example =
    converse-IsSent addresses fresh handler b'<' (codes "m1>") replies 1 delivering refl refl found
      refl conversed refl (record { perm = sort_by-perm; sorted = sort_by-IsSorted })
      (record { is_open = refl; answers = λ n. refl }) delivering-IsValid refl refl
      delivering-AreSound delivering-AcceptsAll few

-- The mail comes in while the worker is idle; then a round, the mail once more, a restart and a round.
abbrev idle_router : Router
idle_router = record {
  handler = handler;
  worker = record sorted_worker {
    queue = record sorted_worker.queue { rows = handler.queue.rows };
  };
}

abbrev steps : List Event
steps = works ∷ receives envelope ∷ starts ∷ works ∷ []

idle-IsShared : IsShared idle_router
idle-IsShared = record {
  order = record { perm = sort_by-perm; sorted = sort_by-IsSorted };
  same = refl;
  table = tt;
  none_open = refl;
}

after_events-IsKept_example :
    AreServed b'<'
      (codes "m1>")
      envelope
      handler
      (λ k rows.
        IsKept
          (StoodOrNew b'<' (codes "m1>") envelope handler [] envelope.rcpt_tos)
          k
          rows
          (after_events (receives envelope ∷ steps) idle_router).handler.queue.rows)
      (after_event (receives envelope) idle_router).handler.queue.rows
      envelope.rcpt_tos
      handler.lookup
after_events-IsKept_example =
    after_events-IsKept idle_router envelope b'<' (codes "m1>") steps idle-IsShared refl found
      answered

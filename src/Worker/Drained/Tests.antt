-- ===== src/Worker/Drained/Tests.antt =====
-- A worker whose server takes every mail.
use mail_router.Prelude.{◌≡◌, ◌≤◌, ◌*◌, refl, true, none, some, [], ◌∷◌, codes, length, arith}
use mail_router.Json.{bool, obj, end, field}
use mail_router.Client.{response, send}
use mail_router.Lookup.{resolve}
use mail_router.Parser.{parse_eml}
use mail_router.Queue.{requeue_in_flight}
use mail_router.Queue.Schema.{pending}
use mail_router.Queue.Sorting.{sort_by-perm, sort_by-IsSorted}
use mail_router.Worker.{Worker, tick, run_forever}
use mail_router.Worker.Deliver.{AreKnown, AcceptsAll}
use mail_router.Worker.Round.{due, mails_in, DeliversDue, tick-DeliversDue}
use mail_router.Worker.Drain.{AreSound}
use mail_router.Worker.Tests.{demo, row, sorted_worker}
use mail_router.Worker.Drained.{open_rows, IsDrained, run_forever-IsDrained}

-- The server takes every mail, and gives no id for it.
abbrev pub delivering_worker : Worker
delivering_worker = record sorted_worker {
  post = λ n _. response (record {
    status_code = 201;
    text = [];
    json = some (obj (field (codes "success") (bool true) end));
  });
}

pub delivering-AcceptsAll : AcceptsAll delivering_worker.python delivering_worker.post
unfolding send
delivering-AcceptsAll n q = (refl, (none, refl))

all-AreKnown :
    AreKnown delivering_worker.email (mails_in (due delivering_worker)) delivering_worker.lookup
unfolding resolve parse_eml
all-AreKnown = (((demo, refl), (_, refl)), tt)

tick-DeliversDue_example : DeliversDue delivering_worker (tick delivering_worker)
tick-DeliversDue_example =
    tick-DeliversDue delivering_worker (record { perm = sort_by-perm; sorted = sort_by-IsSorted })
      (record { is_open = refl; answers = λ n. refl }) refl all-AreKnown delivering-AcceptsAll

-- One row is due.
one_due : length (due delivering_worker) ≡ 1
one_due = refl

-- One mail in flight and one that waits, a batch being one mail.
abbrev busy_worker : Worker
busy_worker = record delivering_worker {
  config = record delivering_worker.config { batch_size = 1 };
  queue = record delivering_worker.queue {
    rows = row ∷ record row { id = 2; idempotency_key = codes "k2"; state = pending } ∷ [];
    sequence = 2;
  };
}

busy-AreSound :
    AreSound busy_worker.email busy_worker.lookup (requeue_in_flight busy_worker.queue).1.rows
unfolding requeue_in_flight resolve parse_eml
busy-AreSound = (refl, (refl, tt))

busy_open : open_rows busy_worker.queue.rows ≤ 2 * busy_worker.config.batch_size
busy_open = omega arith

run_forever-IsDrained_example : IsDrained busy_worker (run_forever 2 busy_worker)
run_forever-IsDrained_example =
    run_forever-IsDrained 2 busy_worker (record { perm = sort_by-perm; sorted = sort_by-IsSorted })
      (record { is_open = refl; answers = λ n. refl })
      (record {
        table = (omega arith, omega arith, refl, refl, (omega arith, omega arith, refl, refl, tt));
        snapshot = tt;
      })
      refl refl busy-AreSound delivering-AcceptsAll busy_open

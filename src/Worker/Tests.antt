-- ===== src/Worker/Tests.antt =====
-- The worker on one item.
use mail_router.Prelude.{ℕ, arith, ◌≡◌, refl, true, false, none, some, [], ◌∷◌, codes}
use mail_router.Exec.{ok}
use mail_router.Json.{str}
use mail_router.Clock.{DateTime}
use mail_router.Client.{DsConfig, Request, timeout, send}
use mail_router.Lookup.{Lookup, resolve}
use mail_router.Parser.{absent, message, parse_eml}
use mail_router.Queue.Schema.{pending, in_flight, Row, QueueItem}
use mail_router.Queue.Sqlite.{Environment, World}
use mail_router.Queue.{requeue_in_flight, new_row, item_of, mark_retry, sort_by}
use mail_router.Queue.Sorting.{received_le, sort_by-perm, sort_by-IsSorted}
use mail_router.Worker.{Worker, process, process_all, run_forever}
use mail_router.Worker.Lifecycle.{Lives}
use mail_router.Worker.Tick.{committed}
use mail_router.Worker.Run.{run_forever-Lives}
use mail_router.Worker.Attempts.{HasAttempts, process_all-HasAttempts}
use mail_router.Worker.Progress.{IsUnderstood, Processed, process-returns}
use mail_router.Worker.Process.{IsProcessed, process-IsProcessed}

abbrev pub demo : DsConfig
demo = record { ds_id = codes "demo"; api_url = codes "https://demo"; api_token = str (codes "t") }

abbrev pub lookup : Lookup
lookup = record {
  table = record {
    auto_reload = false;
    mtime = none;
    hosts = codes "shpd.cz" ∷ [];
    data_sources = (codes "demo", demo) ∷ [];
  };
  python = record { lower = λ s. s; str_of = λ _. [] };
  disk = λ _. none;
  tick = 0;
}

abbrev pub noon : DateTime
noon = record {
  year = 2026;
  month = 1;
  day = 2;
  hour = 12;
  minute = 0;
  second = 0;
  microsecond = 0;
  aware = true;
}

abbrev pub env : Environment
env = record {
  fails = λ _. false;
  clock = λ _. noon;
  lost_ids = 1;
  order_by_received = λ rows. rows;
  fromisoformat = λ _. some noon;
}

abbrev pub row : Row
row =
    record (new_row 1 (codes "2026-01-02 11:59:00+00:00") (record {
      sender_email = codes "a@b.cz";
      recipient_email = codes "demo@shpd.cz";
      ds_id = codes "demo";
      mailbox = none;
      idempotency_key = codes "k1";
      raw_eml = codes "Subject: one";
    })) { state = in_flight }

abbrev pub queue : World
queue = record { env = env; rows = row ∷ []; sequence = 1; saved = none; closed = false; tick = 0 }

-- The server does not answer in time.
abbrev pub worker : Worker
worker = record {
  config = record {
    batch_size = 10;
    max_attempts = 3;
    backoff = 60 ∷ 300 ∷ [];
    queue_size_threshold = 100;
  };
  queue = queue;
  lookup = lookup;
  alerter = record {
    config = record { enabled = false; to_addresses = []; throttle = 60 };
    last_sent = [];
    monotonic = λ n. n;
    readings = 0;
    takes = λ _. true;
    tried = 0;
    sent = [];
  };
  python = lookup.python;
  email = record {
    message_from_bytes = λ _.
        message (record { header = λ _. none; plain_body = absent; html_body = absent; walk = [] });
    getaddresses = λ _. [];
    parsedate_to_datetime = λ _. none;
  };
  post = λ n _. timeout (codes "slow");
  posts = 0;
  show_stats = λ _. [];
}

abbrev pub item : QueueItem
item = item_of queue row noon

process-IsProcessed_example : IsProcessed worker item (process item worker)
process-IsProcessed_example = process-IsProcessed item worker

looked_up : (resolve item.ds_id worker.lookup).0 ≡ ok (some demo)
unfolding resolve
looked_up = refl

worker-IsUnderstood : (n : ℕ) (q : Request) → IsUnderstood (send worker.python (worker.post n q))
unfolding send
worker-IsUnderstood n q = (none, refl)

process-returns_example :
    ((process item worker).0 ≡ ok tt) × Processed worker item (process item worker).1
process-returns_example =
    process-returns item 60 (300 ∷ []) worker (some demo) looked_up refl worker-IsUnderstood
      (record { is_open = refl; answers = λ n. refl })

-- The item waits for its second attempt.
put_off_once : (process item worker).0 ≡ ok tt
unfolding process resolve parse_eml send mark_retry
put_off_once = refl

process_all-HasAttempts_example :
    HasAttempts 3 (process_all (item ∷ item ∷ item ∷ item ∷ []) worker).1.queue.rows
process_all-HasAttempts_example =
    process_all-HasAttempts (item ∷ item ∷ item ∷ item ∷ []) worker (omega arith, tt)

-- The row waits, and is due.
abbrev pub waiting_worker : Worker
waiting_worker = record worker {
  queue = record queue { rows = record row { state = pending } ∷ [] };
}

abbrev pub sorted_worker : Worker
sorted_worker = record waiting_worker {
  queue = record waiting_worker.queue {
    env = record env { order_by_received = sort_by received_le };
  };
}

-- Three rounds.
run_forever-Lives_example :
    Lives 3
      (requeue_in_flight sorted_worker.queue).1.rows
      (committed (run_forever 3 sorted_worker).1.queue)
run_forever-Lives_example =
    run_forever-Lives 3 sorted_worker (record { perm = sort_by-perm; sorted = sort_by-IsSorted })
      (record { table = (omega arith, omega arith, refl, refl, tt); snapshot = tt }) refl

-- ===== src/Config/Defaults.antt =====
-- The defaults, which mail_router/config.py writes twice: in its data classes and in `Config.load`.
use mail_router.Prelude.{ℕ, ◌≡◌, refl, true, false, Text, none, some, codes, ◌==◌}
use mail_router.Result.{ok, ◌>>=◌}
use mail_router.Json.{null, num, str, obj, nil, Fields, field_of, or_else, is_true}
use mail_router.Python.{decimal}
use mail_router.Lookup.{item_at}
use mail_router.Config.{
  Reader, Config, WorkerSection, AlertsSection, load, read_worker, read_alerts, default_backoff,
  numeral, empty_dict, path,
}

-- What Python reads in the numerals of whole numbers.
pub record IsReader (reader : Reader) : Type 0 where
  pub int_of : ℕ → reader.Int
  pub float_of : ℕ → reader.Float
  pub int_lem : (n : ℕ) → reader.int (num (decimal n) (n == 0)) ≡ ok (int_of n)
  pub float_lem : (n : ℕ) → reader.float (num (decimal n) (n == 0)) ≡ ok (float_of n)
  pub to_str_lem : (s : Text) → reader.to_str (str s) ≡ s
  pub upper_info : reader.upper (codes "INFO") ≡ codes "INFO"

module _ (reader : Reader) (reads : IsReader reader) where
  open reads use {int_of, float_of}

  -- `WorkerConfig()`
  abbrev pub worker_defaults : WorkerSection reader
  worker_defaults = record {
    poll_interval = float_of 5;
    batch_size = int_of 10;
    max_attempts = int_of 4;
    http_timeout = float_of 30;
    backoff = default_backoff;
  }

  -- `AlertsConfig()`
  abbrev pub alerts_defaults : AlertsSection reader
  alerts_defaults = record {
    enabled = true;
    smtp_host = codes "localhost";
    smtp_port = int_of 25;
    from_address = codes "mail-router@localhost";
    to_addresses = nil;
    throttle = int_of 1800;
    queue_size_threshold = int_of 100;
  }

  -- `Config(policy_socket=…, lmtp_socket=…, queue_db=…, lookup_file=…)`
  abbrev pub config_defaults : Text → Text → Text → Text → Config reader
  config_defaults policy_socket lmtp_socket queue_db lookup_file = record {
    policy_socket = policy_socket;
    lmtp_socket = lmtp_socket;
    queue_db = queue_db;
    lookup_file = lookup_file;
    lookup_reload = true;
    worker = worker_defaults;
    alerts = alerts_defaults;
    lookup_sync = none;
    log_level = codes "INFO";
  }

  int_at :
      (n : ℕ) (digits : Text)
      → decimal n ≡ digits
      → (n == 0) ≡ false
      → reader.int (numeral digits) ≡ ok (int_of n)
  int_at n digits e f = rw (e, f) at (reads.int_lem n)

  float_at :
      (n : ℕ) (digits : Text)
      → decimal n ≡ digits
      → (n == 0) ≡ false
      → reader.float (numeral digits) ≡ ok (float_of n)
  float_at n digits e f = rw (e, f) at (reads.float_lem n)

  read_worker-empty : read_worker reader empty_dict ≡ ok worker_defaults
  unfolding decimal read_worker
  read_worker-empty = rw (
    float_at 5 (codes "5") refl refl,
    int_at 10 (codes "10") refl refl,
    int_at 4 (codes "4") refl refl,
    float_at 30 (codes "30") refl refl,
  )

  read_alerts-empty : read_alerts reader empty_dict ≡ ok alerts_defaults
  unfolding decimal read_alerts
  read_alerts-empty = rw (
    int_at 25 (codes "25") refl refl,
    int_at 1800 (codes "1800") refl refl,
    int_at 100 (codes "100") refl refl,
    reads.to_str_lem (codes "localhost"),
    reads.to_str_lem (codes "mail-router@localhost"),
  )

  required :
      (k : Text) (fs : Fields) (p : Text)
      → field_of k fs ≡ some (str p)
      → (item_at (obj fs) k >>= path) ≡ ok p
  required k fs p h = rw (item_at, h) refl

  -- A document with the four paths, whose sections are absent or false and that sets nothing else, is
  -- loaded as what the data classes give for the four paths.
  pub load-defaults :
      (fs : Fields) (policy_socket lmtp_socket queue_db lookup_file : Text)
      → field_of (codes "policy_socket") fs ≡ some (str policy_socket)
      → field_of (codes "lmtp_socket") fs ≡ some (str lmtp_socket)
      → field_of (codes "queue_db") fs ≡ some (str queue_db)
      → field_of (codes "lookup_file") fs ≡ some (str lookup_file)
      → is_true (or_else (field_of (codes "worker") fs) empty_dict) ≡ false
      → is_true (or_else (field_of (codes "alerts") fs) empty_dict) ≡ false
      → is_true (or_else (field_of (codes "lookup_sync") fs) null) ≡ false
      → field_of (codes "lookup_reload") fs ≡ none
      → field_of (codes "log_level") fs ≡ none
      → load reader (obj fs) ≡ ok (config_defaults policy_socket lmtp_socket queue_db lookup_file)
  unfolding load
  load-defaults fs p l q f hp hl hq hf worker alerts sync reload level = rw (
    worker,
    alerts,
    sync,
    required (codes "policy_socket") fs p hp,
    required (codes "lmtp_socket") fs l hl,
    required (codes "queue_db") fs q hq,
    required (codes "lookup_file") fs f hf,
    reload,
    level,
    read_worker-empty,
    read_alerts-empty,
    reads.to_str_lem (codes "INFO"),
    reads.upper_info,
  )

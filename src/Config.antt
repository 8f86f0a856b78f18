-- ===== src/Config.antt =====
-- The configuration of mail_router/config.py: `Config.load` over the document that `yaml.safe_load`
-- makes of the file. A mapping's keys that are no texts are looked up by nothing, and are left out.
pub mod Defaults
pub mod Required
pub mod Tests
use mail_router.Prelude.{
  ℕ, Bool, true, false, Text, Option, none, some, List, [], ◌∷◌, map, codes, if◌then◌else◌,
}
use mail_router.Result.{Result, ok, raise, type_error, attribute_error, ◌>>=◌, ◌>>◌}
use mail_router.Json.{
  Json, null, bool, num, str, arr, obj, Items, nil, cons, Fields, end, field, is_true, get, either,
}
use mail_router.Lookup.{item_at}

-- What Python makes of a value: `int`, `float` and `str`, and `str.upper`.
pub record Reader : Type 1 where
  pub Int : Type 0
  pub Float : Type 0
  pub int : Json → Result Int
  pub float : Json → Result Float
  pub to_str : Json → Text
  pub upper : Text → Text

-- `Path(value)`
abbrev pub path : Json → Result Text
path (str s) = ok s
path _ = raise type_error

abbrev texts : Text → Items
texts [] = nil
texts (c ∷ s) = cons (str (c ∷ [])) (texts s)

abbrev keys : Fields → Items
keys end = nil
keys (field k v fs) = cons (str k) (keys fs)

-- `list(value)`: a text gives its characters, a dict its keys
abbrev pub listed : Json → Result Items
listed (arr vs) = ok vs
listed (str s) = ok (texts s)
listed (obj fs) = ok (keys fs)
listed _ = raise type_error

abbrev pub numeral : Text → Json
numeral digits = num digits false

abbrev pub default_backoff : Items
default_backoff =
    cons (num (codes "0") true) (
      cons (numeral (codes "60"))
        (cons (numeral (codes "300")) (cons (numeral (codes "1800")) nil)))

abbrev pub empty_dict : Json
empty_dict = obj end

-- `raw.get(section, {}) or {}`
abbrev pub section : Text → Json → Result Json
section name raw = do found ← get raw name empty_dict; ok (either found empty_dict)

-- `raw.get("lookup_sync") or None`
abbrev pub optional_section : Text → Json → Result Json
optional_section name raw = do found ← get raw name null; ok (either found null)

module _ (reader : Reader) where
  open reader use {Int, Float, int, float, to_str, upper}

  pub record WorkerSection : Type 0 where
    pub poll_interval : Float
    pub batch_size : Int
    pub max_attempts : Int
    pub http_timeout : Float
    pub backoff : Items

  pub record AlertsSection : Type 0 where
    pub enabled : Bool
    pub smtp_host : Text
    pub smtp_port : Int
    pub from_address : Text
    pub to_addresses : Items
    pub throttle : Int
    pub queue_size_threshold : Int

  pub record SyncSection : Type 0 where
    pub url : Text
    pub api_key : Text
    pub timeout : Float

  pub record Config : Type 0 where
    pub policy_socket : Text
    pub lmtp_socket : Text
    pub queue_db : Text
    pub lookup_file : Text
    pub lookup_reload : Bool
    pub worker : WorkerSection
    pub alerts : AlertsSection
    pub lookup_sync : Option SyncSection
    pub log_level : Text

  -- The arguments of `WorkerConfig(…)`, in their order
  unfoldable pub read_worker : Json → Result WorkerSection
  read_worker raw = do
    poll_interval ← get raw (codes "poll_interval") (numeral (codes "5")) >>= float
    batch_size ← get raw (codes "batch_size") (numeral (codes "10")) >>= int
    max_attempts ← get raw (codes "max_attempts") (numeral (codes "4")) >>= int
    http_timeout ← get raw (codes "http_timeout") (numeral (codes "30")) >>= float
    backoff ← get raw (codes "backoff") (arr default_backoff) >>= listed
    ok (record {
      poll_interval = poll_interval;
      batch_size = batch_size;
      max_attempts = max_attempts;
      http_timeout = http_timeout;
      backoff = backoff;
    })

  -- Those of `AlertsConfig(…)`
  unfoldable pub read_alerts : Json → Result AlertsSection
  read_alerts raw = do
    enabled ← get raw (codes "enabled") (bool true)
    smtp_host ← get raw (codes "smtp_host") (str (codes "localhost"))
    smtp_port ← get raw (codes "smtp_port") (numeral (codes "25")) >>= int
    from_address ← get raw (codes "from_address") (str (codes "mail-router@localhost"))
    to_addresses ← get raw (codes "to_addresses") (arr nil) >>= listed
    throttle ← get raw (codes "throttle") (numeral (codes "1800")) >>= int
    queue_size_threshold ← get raw (codes "queue_size_threshold") (numeral (codes "100")) >>= int
    ok (record {
      enabled = is_true enabled;
      smtp_host = to_str smtp_host;
      smtp_port = smtp_port;
      from_address = to_str from_address;
      to_addresses = to_addresses;
      throttle = throttle;
      queue_size_threshold = queue_size_threshold;
    })

  -- Those of `LookupSyncConfig(…)`
  abbrev pub read_sync : Json → Result SyncSection
  read_sync raw = do
    url ← item_at raw (codes "url")
    api_key ← item_at raw (codes "api_key")
    timeout ← get raw (codes "timeout") (numeral (codes "10")) >>= float
    ok (record { url = to_str url; api_key = to_str api_key; timeout = timeout })

  -- `… if lookup_sync_raw is not None else None`
  abbrev pub read_optional_sync : Json → Result (Option SyncSection)
  read_optional_sync null = ok none
  read_optional_sync raw = do read ← read_sync raw; ok (some read)

  -- `Config.load`, on the document
  unfoldable pub load : Json → Result Config
  unfolding read_worker read_alerts
  load raw = do
    worker_raw ← section (codes "worker") raw
    alerts_raw ← section (codes "alerts") raw
    sync_raw ← optional_section (codes "lookup_sync") raw
    policy_socket ← item_at raw (codes "policy_socket") >>= path
    lmtp_socket ← item_at raw (codes "lmtp_socket") >>= path
    queue_db ← item_at raw (codes "queue_db") >>= path
    lookup_file ← item_at raw (codes "lookup_file") >>= path
    lookup_reload ← get raw (codes "lookup_reload") (bool true)
    worker ← read_worker worker_raw
    alerts ← read_alerts alerts_raw
    lookup_sync ← read_optional_sync sync_raw
    log_level ← get raw (codes "log_level") (str (codes "INFO"))
    ok (record {
      policy_socket = policy_socket;
      lmtp_socket = lmtp_socket;
      queue_db = queue_db;
      lookup_file = lookup_file;
      lookup_reload = is_true lookup_reload;
      worker = worker;
      alerts = alerts;
      lookup_sync = lookup_sync;
      log_level = upper (to_str log_level);
    })

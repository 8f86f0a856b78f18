-- ===== src/Lookup.antt =====
-- The lookup table of mail_router/lookup.py over its file. The lock is not modelled: a reload is one
-- step. A reading of the file system is one tick, and the file may change between two of them.
pub mod Reload
pub mod Failure
pub mod Valid
pub mod Document
pub mod Synced
pub mod Tests
use mail_router.Prelude.{
  ℕ, ◌+◌, ◌≡◌, Bool, true, false, not, Text, Option, none, some, List, [], ◌∷◌, ◌++◌, map, codes,
  text_eq, ◌==◌, if◌then◌else◌,
}
use mail_router.Prelude.Dict
use mail_router.Prelude.Dict.{Dict}
use mail_router.Exec.{
  Exec, Result, ok, raise, attribute_error, type_error, key_error, value_error, pure, raises, lift,
  ◌>>=◌, ◌>>◌,
}
use mail_router.Result
use mail_router.Json
use mail_router.Json.{
  Json, null, bool, num, str, arr, obj, Items, nil, cons, Fields, end, field, field_of, get, either,
}
use mail_router.Python.{Python, rstrip_chars}
use mail_router.Client.{DsConfig}

-- The file as one reading finds it: its mtime, which is only compared, and what `json.loads` makes
-- of its text; `none` for JSONDecodeError.
pub record File : Type 0 where
  pub mtime : ℕ
  pub document : Option Json

pub record LookupTable : Type 0 where
  pub auto_reload : Bool
  pub mtime : Option ℕ
  pub hosts : List Text
  pub data_sources : Dict DsConfig

-- The table, with the interpreter and the file system that it runs on; `none` where the file is
-- missing (FileNotFoundError).
pub record Lookup : Type 0 where
  pub table : LookupTable
  pub python : Python
  pub disk : ℕ → Option File
  pub tick : ℕ

abbrev pub contains : Text → List Text → Bool
contains s [] = false
contains s (t ∷ ts) = if text_eq s t then true else contains s ts

-- `x.lower()` of a dynamic value
abbrev pub lowered : Python → Json → Result Text
lowered py (str s) = ok (py.lower s)
lowered py _ = raise attribute_error

pub lowered_items : Python → Items → Result (List Text)
lowered_items py nil = ok []
lowered_items py (cons v vs) = elim (lowered py v) [
  | raise e ↦ raise e
  | ok s ↦ elim (lowered_items py vs) [ raise e ↦ raise e | ok rest ↦ ok (s ∷ rest) ]
]

pub lowered_keys : Python → Fields → List Text
lowered_keys py end = []
lowered_keys py (field k _ fs) = py.lower k ∷ lowered_keys py fs

-- `frozenset(h.lower() for h in hosts)`: a text and a dict are iterated too
unfoldable pub hosts_of : Python → Json → Result (List Text)
unfolding lowered_items lowered_keys
hosts_of py (arr vs) = lowered_items py vs
hosts_of py (str s) = ok (map (λ c. py.lower (c ∷ [])) s)
hosts_of py (obj fs) = ok (lowered_keys py fs)
hosts_of py _ = raise type_error

-- `entry[key]` of a dynamic value with a text for a key
abbrev pub item_at : Json → Text → Result Json
item_at (obj fs) k = elim (field_of k fs) [ none ↦ raise key_error | some v ↦ ok v ]
item_at _ k = raise type_error

abbrev pub rstripped : Json → Result Text
rstripped (str s) = ok (rstrip_chars (codes "/") s)
rstripped _ = raise attribute_error

abbrev pub config_with : Text → Result Json → Result Text → Result DsConfig
config_with ds_id token (raise e) = raise e
config_with ds_id (raise e) (ok url) = raise e
config_with ds_id (ok token) (ok url) =
    ok (record { ds_id = ds_id; api_url = url; api_token = token })

abbrev pub url_of : Result Json → Result Text
url_of (raise e) = raise e
url_of (ok value) = rstripped value

-- The `DsConfig(…)` of an entry; the url is read before the token.
abbrev pub config_of : Python → Text → Json → Result DsConfig
config_of py key entry =
    config_with (py.lower key) (item_at entry (codes "api_token"))
      (url_of (item_at entry (codes "api_url")))

-- The loop over `data_sources.items()`
pub sources_from : Python → Fields → Dict DsConfig → Result (Dict DsConfig)
sources_from py end d = ok d
sources_from py (field key entry fs) d = elim (config_of py key entry) [
  | raise e ↦ raise e
  | ok c ↦ sources_from py fs (Dict.insert (py.lower key) c d)
]

unfoldable pub sources_of : Python → Json → Result (Dict DsConfig)
unfolding sources_from
sources_of py (obj fs) = sources_from py fs []
sources_of py _ = raise attribute_error

abbrev look : Exec Lookup (Option File)
look s = (ok (s.disk s.tick), record s { tick = s.tick + 1 })

abbrev set_table : LookupTable → Exec Lookup Unit
set_table t s = (ok tt, record s { table = t })

abbrev with_python : {A : Type 0} → (Python → Result A) → Exec Lookup A
with_python f s = (f s.python, s)

abbrev mtime_of : Option File → Option ℕ
mtime_of none = none
mtime_of (some f) = some f.mtime

abbrev store_loaded : List Text → Dict DsConfig → Option File → Exec Lookup Unit
store_loaded hosts sources seen s =
    set_table (record s.table { hosts = hosts; data_sources = sources; mtime = mtime_of seen }) s

abbrev load_document : Option Json → Exec Lookup Unit
load_document none = raises value_error
load_document (some raw) = do
  listed ← lift (get raw (codes "hosts") (arr nil))
  hosts ← with_python (λ py. hosts_of py listed)
  found ← lift (get raw (codes "data_sources") null)
  sources ← with_python (λ py. sources_of py (either found (obj end)))
  seen ← look
  store_loaded hosts sources seen

abbrev load_file : Option File → Exec Lookup Unit
load_file none s = set_table (record s.table { hosts = []; data_sources = []; mtime = none }) s
load_file (some f) s = load_document f.document s

-- `_load`
pub load : Exec Lookup Unit
unfolding hosts_of sources_of
load = do seen ← look; load_file seen

abbrev same_mtime : ℕ → Option ℕ → Bool
same_mtime m none = false
same_mtime m (some n) = m == n

abbrev reload_if : Option File → Exec Lookup Unit
reload_if none s = pure tt s
reload_if (some f) s = (if same_mtime f.mtime s.table.mtime then pure tt else load) s

-- `_maybe_reload`
pub maybe_reload : Exec Lookup Unit
unfolding load
maybe_reload = do seen ← look; reload_if seen

abbrev pub reload_when : Bool → Exec Lookup Unit
unfolding maybe_reload
reload_when true = maybe_reload
reload_when false = pure tt

-- `allowed_domains`
unfoldable pub allowed_domains : Exec Lookup (List Text)
unfolding maybe_reload
allowed_domains = do (λ s. reload_when s.table.auto_reload s); (λ s. (ok s.table.hosts, s))

-- `resolve`
unfoldable pub resolve : Text → Exec Lookup (Option DsConfig)
unfolding maybe_reload
resolve ds_id = do
  (λ s. reload_when s.table.auto_reload s)
  (λ s. (ok (Dict.get (s.python.lower ds_id) s.table.data_sources), s))

abbrev pub empty_table : Bool → LookupTable
empty_table auto = record { auto_reload = auto; mtime = none; hosts = []; data_sources = [] }

-- `LookupTable(path, auto_reload=…)`
unfoldable pub open_table : Bool → Exec Lookup Unit
unfolding load
open_table auto = do set_table (empty_table auto); load

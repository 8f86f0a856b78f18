-- ===== src/LookupSync.antt =====
-- What mail_router/lookup_sync.py takes for a lookup document: `validate_payload`.
pub mod Disk
pub mod Atomic
pub mod Run
pub mod Safety
pub mod Outcome
pub mod Update
pub mod Tests
use mail_router.Prelude.{
  Bool, true, false, not, ◌&&◌, Text, Option, none, some, [], ◌∷◌, ◌++◌, codes, if◌then◌else◌,
}
use mail_router.Json.{
  Json, null, str, arr, obj, Items, nil, cons, Fields, end, field, field_of, or_else,
}
use mail_router.Python.{strip}

-- The payload, or `ValidationFailure` with its reason
pub data Validation : Type 0 where
  valid : Json → Validation
  invalid : Text → Validation

abbrev is_nil : Text → Bool
is_nil [] = true
is_nil (c ∷ s) = false

-- `isinstance(h, str) and h.strip()`, as a condition
abbrev pub is_named : Json → Bool
is_named (str s) = not (is_nil (strip s))
is_named _ = false

abbrev pub all_named : Items → Bool
all_named nil = true
all_named (cons v vs) = is_named v && all_named vs

abbrev pub are_hosts : Json → Bool
are_hosts (arr vs) = all_named vs
are_hosts _ = false

abbrev pub value_at : Text → Fields → Json
value_at k fs = or_else (field_of k fs) null

-- `f"data_sources[{key!r}]"`, with the interpreter's `repr`
abbrev source_text : (Text → Text) → Text → Text
source_text repr key = codes "data_sources[" ++ (repr key ++ codes "]")

-- The reason against an entry, if there is one
abbrev pub entry_reason : (Text → Text) → Text → Json → Option Text
entry_reason repr key (obj fs) =
    if not (is_named (value_at (codes "api_url") fs))
    then some (source_text repr key ++ codes ".api_url must be a non-empty string")
    else if not (is_named (value_at (codes "api_token") fs))
    then some (source_text repr key ++ codes ".api_token must be a non-empty string")
    else none
entry_reason repr key _ = some (source_text repr key ++ codes " is not an object")

abbrev first_reason : Option Text → Option Text → Option Text
first_reason (some reason) rest = some reason
first_reason none rest = rest

abbrev pub entries_reason : (Text → Text) → Fields → Option Text
entries_reason repr end = none
entries_reason repr (field key entry fs) =
    first_reason (entry_reason repr key entry) (entries_reason repr fs)

abbrev pub sources_reason : (Text → Text) → Json → Option Text
sources_reason repr (obj fs) = entries_reason repr fs
sources_reason repr _ = some (codes "'data_sources' must be an object")

abbrev pub judged : Option Text → Json → Validation
judged (some reason) payload = invalid reason
judged none payload = valid payload

-- `validate_payload`
unfoldable pub validate_payload : (Text → Text) → Json → Validation
unfolding strip
validate_payload repr (obj fs) =
    if not (are_hosts (value_at (codes "hosts") fs))
    then invalid (codes "'hosts' must be a list of non-empty strings")
    else judged (sources_reason repr (value_at (codes "data_sources") fs)) (obj fs)
validate_payload repr _ = invalid (codes "top-level value is not an object")

-- ===== src/LookupSync/Run.antt =====
-- `sync_once` of mail_router/lookup_sync.py: fetch, validate, write.
use mathlib.Core.Option
use mail_router.Prelude.{
  ℕ, ◌+◌, Bool, true, false, not, Text, Option, none, some, [], ◌∷◌, ◌++◌, codes, ◌==◌,
  if◌then◌else◌,
}
use mail_router.Prelude.Dict.{Dict, insert}
use mail_router.Json.{Json}
use mail_router.Python.{strip, or_none}
use mail_router.Exec.{Exec, ok, other_error, pure, raises, ◌>>=◌, ◌>>◌}
use mail_router.LookupSync.{Validation, valid, invalid, validate_payload}
use mail_router.LookupSync.Disk.{
  StoredFile, lookup_file, etag_file, Disk, owner_only, catch_os, write_atomic,
}

-- `LookupSyncConfig`, but for the timeout
pub record SyncConfig : Type 0 where
  pub url : Text
  pub api_key : Text

pub record Response : Type 0 where
  pub status_code : ℕ
  pub text : Text
  -- the header ETag
  pub etag : Option Text

-- How `http.get` ends: a response, `httpx.TimeoutException`, another `httpx.HTTPError`, or an
-- exception that `sync_once` does not catch.
pub data Fetch : Type 0 where
  response : Response → Fetch
  timeout : Fetch
  http_error : Fetch
  crash : Fetch

-- The server and the standard `json`: `loads` is none for JSONDecodeError, `dumps` is with
-- `indent=2, ensure_ascii=False`, and `repr` that of a text.
pub record Services : Type 0 where
  pub get : Text → Dict Text → Fetch
  pub loads : Text → Option Json
  pub dumps : Json → Text
  pub repr : Text → Text

abbrev pub text_of : Bool → Option StoredFile → Option Text
text_of true file = none
text_of false none = none
text_of false (some file) = or_none (strip file.content)

-- `_read_etag`
abbrev pub read_etag : Exec Disk (Option Text)
read_etag w = (ok (text_of (w.env.fails w.tick) w.files.etag), record w { tick = w.tick + 1 })

abbrev with_etag : Option Text → Dict Text → Dict Text
with_etag none headers = headers
with_etag (some etag) headers = insert (codes "If-None-Match") etag headers

abbrev pub headers_of : SyncConfig → Option Text → Dict Text
headers_of config etag = with_etag etag (
    (codes "Authorization", codes "Bearer " ++ config.api_key)
    ∷ (codes "Accept", codes "application/json")
    ∷ [])

abbrev pub newline : Text
newline = b'\n' ∷ []

-- What is written for a payload, and for a response's ETag
abbrev pub lookup_text : Services → Json → Text
lookup_text services payload = services.dumps payload ++ newline

abbrev pub etag_text : Response → Text
etag_text r = Option.get_or r.etag [] ++ newline

-- The two writes, and the exit code.
abbrev pub store : Services → Response → Json → Exec Disk ℕ
store services r payload =
    catch_os
      (do
        write_atomic lookup_file (lookup_text services payload) owner_only
        write_atomic etag_file (etag_text r) owner_only
        pure 0)
      (λ _. pure 1)

abbrev pub on_validation : Services → Response → Validation → Exec Disk ℕ
on_validation services r (invalid reason) = pure 0
on_validation services r (valid payload) = store services r payload

abbrev pub on_document : Services → Response → Option Json → Exec Disk ℕ
on_document services r none = pure 0
on_document services r (some document) =
    on_validation services r (validate_payload services.repr document)

abbrev pub on_response : Services → Response → Exec Disk ℕ
on_response services r =
    if r.status_code == 304
    then pure 0
    else if not (r.status_code == 200)
    then pure 0
    else on_document services r (services.loads r.text)

abbrev pub on_fetch : Services → Fetch → Exec Disk ℕ
on_fetch services (response r) = on_response services r
on_fetch services timeout = pure 0
on_fetch services http_error = pure 0
on_fetch services crash = raises other_error

-- `sync_once`
unfoldable pub sync_once : Services → Option SyncConfig → Exec Disk ℕ
unfolding write_atomic validate_payload strip
sync_once services none = pure 2
sync_once services (some config) = do
  etag ← read_etag
  on_fetch services (services.get config.url (headers_of config etag))

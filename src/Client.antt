-- ===== src/Client.antt =====
-- The HTTP client, mail_router/client.py, with the data classes of mail_router/models.py that it
-- takes. What httpx does is an argument: the outcome of one POST.
pub mod Interpret
pub mod Tests
use mail_router.Prelude.{
  ℕ, zero, suc, ◌+◌, ◌≡◌, Bool, true, false, ◌||◌, ◌&&◌, not, Text, Option, none, some, List, [],
  ◌∷◌, ◌++◌, ltb, leb, ◌==◌, member, take, map, codes, if◌then◌else◌,
}
use mathlib.Core.Option
use mail_router.Prelude.Dict.{Dict, insert}
use mail_router.Result.{Result, ok, raise, attribute_error, other_error, ◌>>=◌}
use mail_router.Json.{Json, null, str, obj, end, is_true, is_dict, get, either}
use mail_router.Python.{Python, to_str, decimal, strip_chars, has_text}
use mail_router.Clock.{DateTime, pad2, pad4}

pub record DsConfig : Type 0 where
  pub ds_id : Text
  pub api_url : Text
  pub api_token : Json

pub record Attachment : Type 0 where
  pub filename : Text
  pub content_type : Text
  pub content : Text

-- A `datetime` of a mail header: the fields as written, and the UTC offset, if there is one, as
-- `isoformat` prints it.
pub record MailDate : Type 0 where
  pub local : DateTime
  pub offset : Option Text

pub record ParsedEmail : Type 0 where
  pub subject : Text
  pub sender_email : Text
  pub sender_name : Option Text
  pub message_id : Option Text
  pub in_reply_to : Option Text
  pub references : Option Text
  pub date : Option MailDate
  pub body_plain : Option Text
  pub body_html : Option Text
  pub attachments : List Attachment

abbrev pub endpoint_path : Text
endpoint_path = codes "/api/v1/_mail/incoming"

abbrev pub dead_letter_statuses : List ℕ
dead_letter_statuses = 400 ∷ 401 ∷ 403 ∷ 404 ∷ 409 ∷ 413 ∷ 415 ∷ 422 ∷ []

pub record DeliveryResult : Type 0 where
  pub status_code : ℕ
  pub retry : Bool
  pub message_id : Json
  pub error : Option Text
  pub idempotent_replay : Bool

abbrev is_none : Option Text → Bool
is_none none = true
is_none (some _) = false

abbrev pub success : DeliveryResult → Bool
success r = r.status_code == 201 && is_none r.error

-- `isoformat(timespec="seconds")` with the zone UTC where there is none
abbrev seconds_text : DateTime → Text
seconds_text t =
    pad4 t.year
    ++ (b'-' ∷ pad2 t.month
        ++ (b'-' ∷ pad2 t.day
            ++ (b'T' ∷ pad2 t.hour ++ (b':' ∷ pad2 t.minute ++ b':' ∷ pad2 t.second))))

abbrev offset_text : Option Text → Text
offset_text none = codes "+00:00"
offset_text (some o) = o

-- `_iso8601_with_tz`; the fallback is in UTC
unfoldable pub iso8601_with_tz : Option MailDate → DateTime → Text
iso8601_with_tz none fallback = seconds_text fallback ++ codes "+00:00"
iso8601_with_tz (some d) fallback = seconds_text d.local ++ offset_text d.offset

pub record Request : Type 0 where
  pub url : Text
  pub fields : Dict Text
  pub files : List (Text × (Text × Text × Text))
  pub headers : Dict Text

-- `if value: data[name] = value`
abbrev put_if : Text → Option Text → Dict Text → Dict Text
put_if name value d = if has_text value then insert name (Option.get_or value []) d else d

abbrev raw_source : Text → Text × (Text × Text × Text)
raw_source raw = (codes "raw_source", (codes "message.eml", raw, codes "message/rfc822"))

abbrev attachment_file : Attachment → Text × (Text × Text × Text)
attachment_file att = (codes "attachments[]", (att.filename, att.content, att.content_type))

-- The request that `send` posts.
unfoldable pub request_of :
    Python → DsConfig → Option Text → DateTime → ParsedEmail → Text → Option Text → Request
unfolding iso8601_with_tz
request_of py ds mailbox received parsed raw key = record {
  url = ds.api_url ++ endpoint_path;
  fields = put_if (codes "reply_references") parsed.references (
      put_if (codes "in_reply_to") parsed.in_reply_to (
        put_if (codes "body_html") parsed.body_html (
          put_if (codes "body_plain") parsed.body_plain (
            put_if (codes "sender_name") parsed.sender_name (
              put_if (codes "external_message_id") parsed.message_id (
                put_if (codes "mailbox") mailbox (
                  (codes "received_at", iso8601_with_tz parsed.date received)
                  ∷ (codes "sender_email", parsed.sender_email)
                  ∷ (codes "subject", parsed.subject)
                  ∷ [])))))));
  files = raw_source raw ∷ map attachment_file parsed.attachments;
  headers = put_if (codes "X-Idempotency-Key") key (
      (codes "Authorization", codes "Bearer " ++ to_str py ds.api_token)
      ∷ (codes "Accept", codes "application/json")
      ∷ []);
}

-- `json` is none where `response.json()` raises ValueError.
pub record Response : Type 0 where
  pub status_code : ℕ
  pub text : Text
  pub json : Option Json

-- How `client.post` ends: a response, `httpx.TimeoutException`, another `httpx.HTTPError` (with the
-- exception's text), or an exception that `send` does not catch.
pub data Outcome : Type 0 where
  response : Response → Outcome
  timeout : Text → Outcome
  http_error : Text → Outcome
  crash : Outcome

abbrev pub body_of : Option Json → Json
body_of none = null
body_of (some v) = v

-- `status == 201 and parsed_body and parsed_body.get("success")`, as a condition
abbrev pub is_accepted : ℕ → Json → Result Bool
is_accepted status body =
    if status == 201 && is_true body
    then (do v ← get body (codes "success") null; ok (is_true v))
    else ok false

abbrev pub accepted : Json → Result DeliveryResult
accepted body = do
  found ← get body (codes "data") null
  let payload = either found (obj end)
  message_id ← get payload (codes "message_id") null
  replay ← get payload (codes "idempotent_replay") null
  ok (record {
    status_code = 201;
    retry = false;
    message_id = message_id;
    error = none;
    idempotent_replay = is_true replay;
  })

-- the code and the message of an error that is a dict
abbrev pub error_text : Python → Json → Result Text
error_text py err = do
  code ← get err (codes "code") (str (codes "?"))
  message ← get err (codes "message") (str [])
  ok (strip_chars (codes ": ") (to_str py code ++ codes ": " ++ to_str py message))

abbrev pub error_message : Python → Response → Json → Result Text
error_message py r body =
    let plain = codes "HTTP " ++ decimal r.status_code ++ codes ": " ++ take 2000 r.text in
    if is_true body
    then (do
      err ← get body (codes "error") null
      if is_dict err then error_text py err else ok plain)
    else ok plain

-- the two assignments to `retry`
abbrev pub is_retried : ℕ → Bool
is_retried status =
    if (leb 200 status && ltb status 500) && not (status == 201)
    then false
    else not (member status dead_letter_statuses) && leb 500 status

abbrev pub refused : Python → Response → Json → Result DeliveryResult
refused py r body = do
  message ← error_message py r body
  ok (record {
    status_code = r.status_code;
    retry = is_retried r.status_code;
    message_id = null;
    error = some message;
    idempotent_replay = false;
  })

-- `_interpret`
unfoldable pub interpret : Python → Response → Result DeliveryResult
unfolding strip_chars decimal
interpret py r = do
  yes_it_is ← is_accepted r.status_code (body_of r.json)
  if yes_it_is then accepted (body_of r.json) else refused py r (body_of r.json)

abbrev failed : Text → DeliveryResult
failed message = record {
  status_code = 0;
  retry = true;
  message_id = null;
  error = some message;
  idempotent_replay = false;
}

-- `send`, after the POST of `request_of`
unfoldable pub send : Python → Outcome → Result DeliveryResult
unfolding interpret
send py (response r) = interpret py r
send py (timeout exc) = ok (failed (codes "timeout: " ++ exc))
send py (http_error exc) = ok (failed (codes "network: " ++ exc))
send py crash = raise other_error

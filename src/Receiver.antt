-- ===== src/Receiver.antt =====
-- The LMTP handler of mail_router/receiver.py. The LMTP server and the sockets are the library
-- aiosmtpd's and asyncio's.
pub mod Accept
pub mod Reloads
pub mod Keeps
pub mod Offer
pub mod Session
pub mod Tests
use mail_router.Prelude.{
  ℕ, suc, ◌+◌, Bool, true, false, not, ◌&&◌, Text, Option, none, some, List, [], ◌∷◌, ◌++◌, String,
  codes, ◌==◌, if◌then◌else◌,
}
use mathlib.Core.Option
use mail_router.Exec.{Exec, Error, Result, ok, raise, pure, continue, within, catch, ◌>>=◌, ◌>>◌}
use mail_router.Python.{Python, strip, has_text}
use mail_router.Lookup.{Lookup, allowed_domains, resolve}
use mail_router.Client.{DsConfig}
use mail_router.Address.{ParsedAddress, parse_recipient}
use mail_router.Parser.{EmailPackage, Message, Read, message, failure, idempotency_key}
use mail_router.Queue.{Mail, enqueue}
use mail_router.Queue.Sqlite.{World}

-- `envelope.content` and `envelope.mail_from`, None as the empty text, and `envelope.rcpt_tos`
pub record Envelope : Type 0 where
  pub content : Text
  pub mail_from : Text
  pub rcpt_tos : List Text

-- The handler with what it calls. `uuid` gives the hex digits of the random ids, one after the other.
pub record Handler : Type 0 where
  pub queue : World
  pub lookup : Lookup
  pub python : Python
  pub email : EmailPackage
  pub sha256 : Text → Text
  pub uuid : ℕ → Text
  pub uuids : ℕ

abbrev pub on_queue : {A : Type 0} → Exec World A → Exec Handler A
on_queue = within (λ s. s.queue) (λ w s. record s { queue = w })

abbrev pub on_lookup : {A : Type 0} → Exec Lookup A → Exec Handler A
on_lookup = within (λ s. s.lookup) (λ l s. record s { lookup = l })

abbrev pub stripped : Option Text → Option Text
stripped none = none
stripped (some []) = none
stripped (some (c ∷ s)) = some (strip (c ∷ s))

abbrev first_of_two : Option Text → Option Text → Option Text
first_of_two a b = if has_text a then a else b

abbrev id_in : Read → Option Text
id_in (failure exc) = none
id_in (message msg) = stripped (
    first_of_two (first_of_two (msg.header (codes "Message-ID")) (msg.header (codes "Message-Id")))
      (msg.header (codes "message-id")))

-- `_extract_message_id`
pub extract_message_id : EmailPackage → Text → Option Text
unfolding strip
extract_message_id email raw = id_in (email.message_from_bytes raw)

abbrev pub malformed : String
malformed = "550 5.1.1 Unknown recipient (malformed address or domain)"

abbrev pub unknown : String
unknown = "550 5.1.1 Unknown recipient"

abbrev pub accepted_text : String
accepted_text = "250 OK"

abbrev pub try_again : String
try_again = "451 4.3.0 Temporary failure, try again later"

-- The reply, and the envelope with the address if it is accepted
abbrev pub reply_of : Option DsConfig → Text → Envelope → String × Envelope
reply_of none address envelope = (unknown, envelope)
reply_of (some ds) address envelope =
    (accepted_text, record envelope { rcpt_tos = envelope.rcpt_tos ++ address ∷ [] })

abbrev pub check_parsed : Option ParsedAddress → Text → Envelope → Exec Lookup (String × Envelope)
check_parsed none address envelope s = (ok (malformed, envelope), s)
check_parsed (some parsed) address envelope s =
    (do ds ← resolve parsed.ds_id; pure (reply_of ds address envelope)) s

-- `handle_RCPT`
unfoldable pub handle_rcpt : Text → Envelope → Exec Lookup (String × Envelope)
handle_rcpt address envelope = do
  domains ← allowed_domains
  (λ s. check_parsed (parse_recipient s.python address domains) address envelope s)

-- `rcpt.split("@", 1)[0]`
abbrev pub before_at : Text → Text
before_at [] = []
before_at (c ∷ s) = if c == b'@' then [] else c ∷ before_at s

abbrev pub nomid : Text → Text
nomid hex = codes "nomid-" ++ hex

-- The key of one recipient's copy
abbrev pub key_for : Option Text → Text → ParsedAddress → Exec Handler Text
key_for message_id rcpt parsed s =
    if has_text message_id
    then (
      ok (
          idempotency_key s.sha256 s.python parsed.domain (before_at rcpt)
            (Option.get_or message_id [])),
      s,
    )
    else (ok (nomid (s.uuid s.uuids)), record s { uuids = s.uuids + 1 })

abbrev pub mail_for : Envelope → Text → ParsedAddress → Text → Mail
mail_for envelope rcpt parsed key = record {
  sender_email = envelope.mail_from;
  recipient_email = rcpt;
  ds_id = parsed.ds_id;
  mailbox = parsed.mailbox;
  idempotency_key = key;
  raw_eml = envelope.content;
}

abbrev pub store_parsed : Option Text → Envelope → Text → Option ParsedAddress → Exec Handler Unit
store_parsed message_id envelope rcpt none s = (ok tt, s)
store_parsed message_id envelope rcpt (some parsed) s =
    (do
      key ← key_for message_id rcpt parsed
      on_queue (enqueue (mail_for envelope rcpt parsed key))
      pure tt)
      s

-- One round of the loop over the recipients
abbrev pub store_for : Option Text → Envelope → Text → Exec Handler Unit
store_for message_id envelope rcpt = do
  domains ← on_lookup allowed_domains
  (λ s. store_parsed message_id envelope rcpt (parse_recipient s.python rcpt domains) s)

pub store_all : Option Text → Envelope → List Text → Exec Handler Unit
store_all message_id envelope [] = pure tt
store_all message_id envelope (rcpt ∷ rcpts) = do
  store_for message_id envelope rcpt
  store_all message_id envelope rcpts

-- `handle_DATA`
unfoldable pub handle_data : Envelope → Exec Handler String
unfolding store_all extract_message_id
handle_data envelope s =
    catch
      (store_all (extract_message_id s.email envelope.content) envelope envelope.rcpt_tos
        >> pure accepted_text)
      (λ _. pure try_again) s

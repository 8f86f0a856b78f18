-- ===== src/Parser.antt =====
-- mail_router/parser.py. The standard `email` package is an argument: the message that it makes of
-- the bytes, with the accessors that the code calls.
pub mod Keys
pub mod Tests
use mathlib.Core.Option
use mail_router.Prelude.{
  ℕ, suc, Bool, true, false, not, ◌||◌, Text, Option, none, some, List, [], ◌∷◌, ◌++◌, codes,
  text_eq, starts_with, ◌==◌, if◌then◌else◌,
}
use mail_router.Python.{Python, strip, decimal, has_text, or_none}
use mail_router.Client.{Attachment, MailDate, ParsedEmail}

-- A part as `msg.walk()` gives it; `payload` is `get_payload(decode=True)`: none if it raises, and
-- the empty text for None.
pub record Part : Type 0 where
  pub is_message : Bool
  pub is_multipart : Bool
  pub filename : Option Text
  pub content_type : Text
  pub content_disposition : Option Text
  pub content_id : Option Text
  pub payload : Option Text

-- A body part is there or not, and its `get_content()` returns or raises.
pub data Body : Type 0 where
  absent : Body
  unreadable : Body
  content : Text → Body

pub record Message : Type 0 where
  pub header : Text → Option Text
  pub plain_body : Body
  pub html_body : Body
  pub walk : List Part

-- `message_from_bytes` returns a message, or raises an exception with a text.
pub data Read : Type 0 where
  message : Message → Read
  failure : Text → Read

pub record EmailPackage : Type 0 where
  pub message_from_bytes : Text → Read
  -- `getaddresses([value])`: pairs of a name and an address
  pub getaddresses : Text → List (Text × Text)
  -- `parsedate_to_datetime`; none for TypeError and ValueError
  pub parsedate_to_datetime : Text → Option MailDate

-- `_decode_header`
abbrev pub decode_header : Option Text → Text
decode_header none = []
decode_header (some value) = strip value

abbrev first_address : List (Text × Text) → Text × Option Text
first_address [] = ([], none)
first_address ((name, addr) ∷ _) = (strip addr, or_none (strip name))

-- `_extract_address`
abbrev pub extract_address : EmailPackage → Option Text → Text × Option Text
extract_address py none = ([], none)
extract_address py (some []) = ([], none)
extract_address py (some (c ∷ s)) = first_address (py.getaddresses (c ∷ s))

-- what stands behind the first "/", and what stands before the first ";"
abbrev pub after_slash : Text → Option Text
after_slash [] = none
after_slash (c ∷ s) = if c == b'/' then some s else after_slash s

abbrev pub before_semicolon : Text → Text
before_semicolon [] = []
before_semicolon (c ∷ s) = if c == b';' then [] else c ∷ before_semicolon s

abbrev other_extension : Option Text → Text
other_extension none = []
other_extension (some subtype) = b'.' ∷ before_semicolon subtype

abbrev pub extension_of : Text → Text
extension_of ctype =
    if text_eq ctype (codes "text/plain")
    then codes ".txt"
    else if text_eq ctype (codes "text/html")
    then codes ".html"
    else other_extension (after_slash ctype)

-- `_safe_filename`
pub safe_filename : ℕ → Part → Text
safe_filename fallback_idx part =
    if has_text part.filename
    then Option.get_or part.filename []
    else codes "attachment-" ++ (decimal fallback_idx ++ extension_of part.content_type)

-- `get_content_disposition()` is in lower case already.
pub is_attachment : Part → Bool
is_attachment part =
    if part.is_multipart
    then false
    else if text_eq (Option.get_or part.content_disposition []) (codes "attachment")
    then true
    else if starts_with (codes "text/") part.content_type
    then false
    else not (has_text part.content_id)

abbrev body_text : Body → Option Text
body_text absent = none
body_text unreadable = none
body_text (content s) = some s

abbrev attachment_of : ℕ → Part → Attachment
attachment_of idx part = record {
  filename = safe_filename idx part;
  content_type = part.content_type;
  content = Option.get_or part.payload [];
}

abbrev is_skipped : Part → Bool
is_skipped part = part.is_message || part.is_multipart || not (is_attachment part)

-- The loop over `msg.walk()`, after `idx` attachments
pub attachments_from : ℕ → List Part → List Attachment
unfolding safe_filename is_attachment
attachments_from idx [] = []
attachments_from idx (part ∷ parts) =
    let here = attachments_from idx parts in
    let there = attachment_of (suc idx) part ∷ attachments_from (suc idx) parts in
    if is_skipped part then here else there

abbrev date_of : EmailPackage → Option Text → Option MailDate
date_of py none = none
date_of py (some []) = none
date_of py (some (c ∷ s)) = py.parsedate_to_datetime (c ∷ s)

abbrev parsed_message : EmailPackage → Message → ParsedEmail
parsed_message py msg =
    let (sender_email, sender_name) = extract_address py (msg.header (codes "From")) in
    record {
      subject = decode_header (msg.header (codes "Subject"));
      sender_email = sender_email;
      sender_name = sender_name;
      message_id = or_none (decode_header (msg.header (codes "Message-ID")));
      in_reply_to = or_none (decode_header (msg.header (codes "In-Reply-To")));
      references = or_none (decode_header (msg.header (codes "References")));
      date = date_of py (msg.header (codes "Date"));
      body_plain = body_text msg.plain_body;
      body_html = body_text msg.html_body;
      attachments = attachments_from 0 msg.walk;
    }

-- The outcome of `parse_eml`: a mail, or ParseError with its text.
pub data Parsed : Type 0 where
  parsed : ParsedEmail → Parsed
  parse_error : Text → Parsed

abbrev parse_read : EmailPackage → Read → Parsed
parse_read py (message msg) = parsed (parsed_message py msg)
parse_read py (failure exc) = parse_error (codes "cannot parse MIME: " ++ exc)

-- `parse_eml`
unfoldable pub parse_eml : EmailPackage → Text → Parsed
unfolding attachments_from strip decimal
parse_eml py raw = parse_read py (py.message_from_bytes raw)

-- What `idempotency_key` hashes.
abbrev pub key_payload : Python → Text → Text → Text → Text
key_payload py domain local_part message_id =
    py.lower domain ++ (b'/' ∷ local_part ++ (b'/' ∷ message_id))

-- `idempotency_key`, with `sha256` for the hex digest of SHA-256
abbrev pub idempotency_key : (Text → Text) → Python → Text → Text → Text → Text
idempotency_key sha256 py domain local_part message_id =
    sha256 (key_payload py domain local_part message_id)

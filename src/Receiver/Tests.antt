-- ===== src/Receiver/Tests.antt =====
-- A mail at the LMTP handler.
use mail_router.Prelude.{
  List, Text, String, ◌≡◌, refl, true, false, none, some, [], ◌∷◌, codes, text_eq, ltb, length,
  if◌then◌else◌,
}
use mail_router.Exec.{ok}
use mail_router.Json.{Json, str, obj, arr, nil, cons, end, field}
use mail_router.Clock.{DateTime}
use mail_router.Lookup.{Lookup, allowed_domains, hosts_of, sources_of}
use mail_router.Address.{parse_recipient}
use mail_router.Parser.{EmailPackage, absent, message}
use mail_router.Queue.{enqueue}
use mail_router.Queue.Sqlite.{Environment}
use mail_router.Lookup.{resolve}
use mail_router.Receiver.Session.{converse, AreAnswered, converse-AreAnswered}
use mail_router.Receiver.{
  malformed, handle_rcpt, Envelope, Handler, extract_message_id, handle_data, accepted_text,
}
use mail_router.Receiver.Reloads.{HasRow, AreServed, handle_data-serves}
use mail_router.Receiver.Accept.{HasCopy}

abbrev pub lookup : Lookup
lookup = record {
  table = record {
    auto_reload = false;
    mtime = none;
    hosts = codes "shpd.cz" ∷ [];
    data_sources =
        (
          codes "demo",
          record {
            ds_id = codes "demo";
            api_url = codes "https://demo";
            api_token = str (codes "t");
          },
        )
        ∷ [];
  };
  python = record { lower = λ s. s; str_of = λ _. [] };
  disk = λ _. none;
  tick = 0;
}

abbrev pub noon : DateTime
noon = record {
  year = 2026;
  month = 1;
  day = 2;
  hour = 12;
  minute = 0;
  second = 0;
  microsecond = 0;
  aware = true;
}

abbrev pub env : Environment
env = record {
  fails = λ _. false;
  clock = λ _. noon;
  lost_ids = 1;
  order_by_received = λ rows. rows;
  fromisoformat = λ _. some noon;
}

abbrev pub email : EmailPackage
email = record {
  message_from_bytes = λ raw. message (record {
    header = λ name. if text_eq name (codes "Message-ID") then some raw else none;
    plain_body = absent;
    html_body = absent;
    walk = [];
  });
  getaddresses = λ _. [];
  parsedate_to_datetime = λ _. none;
}

abbrev pub handler : Handler
handler = record {
  queue = record { env = env; rows = []; sequence = 0; saved = none; closed = false; tick = 0 };
  lookup = lookup;
  python = lookup.python;
  email = email;
  sha256 = λ s. s;
  uuid = λ _. codes "00";
  uuids = 0;
}

-- Two mailboxes of one data source, and a recipient of another host.
abbrev pub envelope : Envelope
envelope = record {
  content = codes "<m1>";
  mail_from = codes "a@b.cz";
  rcpt_tos = codes "demo@shpd.cz" ∷ codes "demo+in@shpd.cz" ∷ codes "demo@other.cz" ∷ [];
}

pub found : extract_message_id email envelope.content ≡ some (codes "<m1>")
unfolding extract_message_id
found = refl

pub answered : (handle_data envelope handler).0 ≡ ok accepted_text
unfolding handle_data allowed_domains parse_recipient enqueue
answered = refl

-- The lookup file has no hosts any more when the mail arrives.
abbrev reloaded : Handler
reloaded = record handler {
  lookup = record lookup {
    table = record lookup.table { auto_reload = true; mtime = some 1 };
    disk = λ _.
        some (record { mtime = 2; document = some (obj (field (codes "hosts") (arr nil) end)) });
  };
}

reloaded-drops :
    ((handle_data envelope reloaded).0 ≡ ok accepted_text)
    × ((handle_data envelope reloaded).1.queue.rows ≡ [])
unfolding handle_data allowed_domains parse_recipient hosts_of sources_of
reloaded-drops = (refl, refl)

-- The hosts go away between the first recipient and the second.
abbrev hosts_doc : List Text → Json
hosts_doc [] = obj (field (codes "hosts") (arr nil) end)
hosts_doc (h ∷ hs) = obj (field (codes "hosts") (arr (cons (str h) nil)) end)

abbrev changing : Handler
changing = record reloaded {
  lookup = record reloaded.lookup {
    disk = λ n.
        if ltb n 3
        then some (record { mtime = 2; document = some (hosts_doc (codes "shpd.cz" ∷ [])) })
        else some (record { mtime = 3; document = some (hosts_doc []) });
  };
}

answered_then :
    ((handle_data envelope changing).0 ≡ ok accepted_text)
    × (length (handle_data envelope changing).1.queue.rows ≡ 1)
unfolding handle_data allowed_domains parse_recipient hosts_of sources_of enqueue
answered_then = (refl, refl)

handle_data-serves_example :
    AreServed b'<'
      (codes "m1>")
      envelope
      changing
      (HasRow b'<' (codes "m1>") envelope changing [] envelope.rcpt_tos)
      (handle_data envelope changing).1.queue.rows
      envelope.rcpt_tos
      changing.lookup
handle_data-serves_example =
    handle_data-serves changing envelope b'<' (codes "m1>") found answered_then.0

-- A client that offers two mailboxes and a recipient of another host, and then sends the mail.
abbrev pub fresh : Envelope
fresh = record envelope { rcpt_tos = [] }

abbrev pub addresses : List Text
addresses = codes "demo@shpd.cz" ∷ codes "demo+in@shpd.cz" ∷ codes "demo@other.cz" ∷ []

abbrev pub replies : List String
replies = accepted_text ∷ accepted_text ∷ malformed ∷ []

pub conversed : (converse addresses fresh handler).0 ≡ ok (replies, accepted_text)
unfolding converse handle_rcpt handle_data allowed_domains resolve parse_recipient enqueue
conversed = refl

converse-AreAnswered_example :
    AreAnswered b'<'
      (codes "m1>")
      fresh
      handler
      (λ k.
        HasCopy b'<'
          (codes "m1>")
          fresh
          handler
          addresses
          k
          (converse addresses fresh handler).1.queue.rows)
      addresses
      replies
converse-AreAnswered_example =
    converse-AreAnswered addresses fresh handler b'<' (codes "m1>") replies refl refl found refl
      conversed

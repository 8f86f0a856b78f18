-- ===== src/Policy/Tests.antt =====
-- Requests to the policy server, and a recipient that the LMTP handler is asked about too.
use mail_router.Prelude.{
  ◌≡◌, refl, true, false, Text, Option, none, some, List, [], ◌∷◌, ◌++◌, codes, All,
}
use mathlib.Core.Option
use mail_router.Prelude.Dict
use mail_router.Prelude.Dict.{Dict}
use mail_router.Json.{str}
use mail_router.Python.{strip}
use mail_router.Address.{parse_recipient}
use mail_router.Lookup.{Lookup, allowed_domains, resolve}
use mail_router.Receiver.{Envelope, handle_rcpt}
use mail_router.Exec.{value_error}
use mail_router.Policy.{Incoming, broken, evaluate}
use mail_router.Policy.Request.{IsPair, print_request}
use mail_router.Policy.Connection.{Connection, deferred, handle_client}
use mail_router.Policy.Session.{print_all, replies_to, handle_client-answer}
use mail_router.Policy.Verdict.{Agrees, evaluate-agrees}

abbrev lookup : Lookup
lookup = record {
  table = record {
    auto_reload = false;
    mtime = none;
    hosts = codes "shpd.cz" ∷ [];
    data_sources =
        (
          codes "demo",
          record {
            ds_id = codes "demo";
            api_url = codes "https://demo";
            api_token = str (codes "t");
          },
        )
        ∷ [];
  };
  python = record { lower = λ s. s; str_of = λ _. [] };
  disk = λ _. none;
  tick = 0;
}

abbrev envelope : Envelope
envelope = record { content = []; mail_from = codes "a@b.cz"; rcpt_tos = [] }

abbrev attrs : Dict Text
attrs =
    (codes "request", codes "smtpd_access_policy")
    ∷ (codes "recipient", codes " demo@shpd.cz ")
    ∷ []

stripped : strip (Option.get_or (Dict.get (codes "recipient") attrs) []) ≡ codes "demo@shpd.cz"
unfolding strip
stripped = refl

evaluate-agrees_example :
    Agrees
      (codes "demo@shpd.cz")
      envelope
      (evaluate attrs lookup)
      (handle_rcpt (codes "demo@shpd.cz") envelope lookup)
evaluate-agrees_example = evaluate-agrees attrs b'd' (codes "emo@shpd.cz") envelope lookup stripped

abbrev unknown_attrs : List (Text × Text)
unknown_attrs = (codes "recipient", codes "nobody@shpd.cz") ∷ []

abbrev known_attrs : List (Text × Text)
known_attrs =
    (codes "request", codes "smtpd_access_policy") ∷ (codes "recipient", codes "demo@shpd.cz") ∷ []

known-IsPair : All IsPair known_attrs
unfolding strip
known-IsPair = ((refl, refl, refl, refl), ((refl, refl, refl, refl), tt))

unknown-IsPair : All IsPair unknown_attrs
unfolding strip
unknown-IsPair = ((refl, refl, refl, refl), tt)

abbrev connection : List Incoming → Connection
connection incoming = record {
  incoming = incoming;
  lookup = lookup;
  replies = [];
  drains = λ _. none;
  drained = 0;
  closed = false;
}

-- A request, and then a stream that breaks within a line.
abbrev cut_off : Connection
cut_off = connection (print_request known_attrs ++ broken value_error ∷ [])

abbrev replies : Option Connection → List Text
replies none = []
replies (some c) = c.replies

cut_off-replies : replies (handle_client cut_off) ≡ codes "action=OK\n\n" ∷ deferred ∷ []
unfolding handle_client allowed_domains parse_recipient resolve
cut_off-replies = refl

abbrev two_requests : Connection
two_requests = connection (print_all (known_attrs ∷ unknown_attrs ∷ []))

handle_client-answer_example :
    (d : Connection) × (handle_client two_requests ≡ some d)
    × (d.replies ≡ [] ++ replies_to lookup (known_attrs ∷ unknown_attrs ∷ []))
    × (d.closed ≡ true)
handle_client-answer_example =
    handle_client-answer (known_attrs ∷ unknown_attrs ∷ []) two_requests refl (λ _. refl)
      (known-IsPair, (unknown-IsPair, tt)) refl

-- ===== src/Receiver/Offer.antt =====
-- RCPT for one address after the other, as a client sends it.
use mathlib.Core.List.{append-nil, append_assoc}
use mail_router.Prelude.{
  ◌≡◌, refl, sym, ◌∙◌, Bool, true, false, Text, Option, none, some, List, [], ◌∷◌, ◌++◌, select,
  map, String, if◌then◌else◌,
}
use mail_router.Prelude.Dict
use mail_router.Exec.{Exec, Result, ok, pure, ◌>>=◌}
use mail_router.Client.{DsConfig}
use mail_router.Lookup.{Lookup}
use mail_router.Lookup.Reload.{allowed_domains-static, resolve-static}
use mail_router.Address.{ParsedAddress, parse_recipient}
use mail_router.Receiver.{
  Envelope, accepted_text, malformed, unknown, check_parsed, reply_of, handle_rcpt,
}

-- The replies to RCPT for one address after the other, and the envelope that they leave
unfoldable pub offered : List Text → Envelope → Exec Lookup (List String × Envelope)
offered [] envelope = pure ([], envelope)
offered (address ∷ addresses) envelope = do
  first ← handle_rcpt address envelope
  rest ← offered addresses first.1
  pure (first.0 ∷ rest.0, rest.1)

abbrev pub reply_as : Lookup → Option ParsedAddress → String
reply_as l none = malformed
reply_as l (some p) = elim (Dict.get (l.python.lower p.ds_id) l.table.data_sources) [
  | none ↦ unknown
  | some ds ↦ accepted_text
]

abbrev pub served_as : Lookup → Option ParsedAddress → Bool
served_as l none = false
served_as l (some p) = elim (Dict.get (l.python.lower p.ds_id) l.table.data_sources) [
  | none ↦ false
  | some ds ↦ true
]

abbrev pub reply_to : Lookup → Text → String
reply_to l address = reply_as l (parse_recipient l.python address l.table.hosts)

abbrev pub is_served : Lookup → Text → Bool
is_served l address = served_as l (parse_recipient l.python address l.table.hosts)

-- The envelope, with the address if it is accepted
abbrev add_if : Bool → Text → Envelope → Envelope
add_if true address envelope = record envelope { rcpt_tos = envelope.rcpt_tos ++ address ∷ [] }
add_if false address envelope = envelope

check-static :
    (address : Text) (envelope : Envelope) (l : Lookup) (p : Option ParsedAddress)
    → l.table.auto_reload ≡ false
    → check_parsed p address envelope l
      ≡ (ok (reply_as l p, add_if (served_as l p) address envelope), l)
check-static address envelope l none static = refl
check-static address envelope l (some p) static =
    rw (resolve-static p.ds_id l static)
      (go (Dict.get (l.python.lower p.ds_id) l.table.data_sources))
  where
    go :
        (o : Option DsConfig)
        → ◌≡◌ {A = Result (String × Envelope) × Lookup}
            (ok (reply_of o address envelope), l)
            (
              ok (
                elim o [ none ↦ unknown | some ds ↦ accepted_text ],
                add_if (elim o [ none ↦ false | some ds ↦ true ]) address envelope,
              ),
              l,
            )
    go none = refl
    go (some ds) = refl

handle_rcpt-static :
    (address : Text) (envelope : Envelope) (l : Lookup)
    → l.table.auto_reload ≡ false
    → handle_rcpt address envelope l
      ≡ (ok (reply_to l address, add_if (is_served l address) address envelope), l)
unfolding handle_rcpt
handle_rcpt-static address envelope l static =
    rw (allowed_domains-static l static)
      (check-static address envelope l (parse_recipient l.python address l.table.hosts) static)

-- The addresses that are accepted have gone into the envelope, in their order.
pub record Enlists (addresses : List Text) (envelope : Envelope) (l : Lookup) : Type 0 where
  pub after : Envelope
  pub runs : offered addresses envelope l ≡ (ok (map (reply_to l) addresses, after), l)
  pub content : after.content ≡ envelope.content
  pub sender : after.mail_from ≡ envelope.mail_from
  pub rcpts : after.rcpt_tos ≡ envelope.rcpt_tos ++ select (is_served l) addresses

pub offered-Enlists :
    (addresses : List Text) (envelope : Envelope) (l : Lookup)
    → l.table.auto_reload ≡ false
    → Enlists addresses envelope l
unfolding offered
offered-Enlists [] envelope l static = record {
  after = envelope;
  runs = refl;
  content = refl;
  sender = refl;
  rcpts = sym (append-nil envelope.rcpt_tos);
}
offered-Enlists (address ∷ addresses) envelope l static =
    let first = add_if (is_served l address) address envelope in
    let later = offered-Enlists addresses first l static in
    record {
      after = later.after;
      runs = rw (handle_rcpt-static address envelope l static, later.runs) refl;
      content = later.content ∙ same (is_served l address);
      sender = later.sender ∙ same_sender (is_served l address);
      rcpts = later.rcpts ∙ moved (is_served l address);
    }
  where
    same : (b : Bool) → (add_if b address envelope).content ≡ envelope.content
    same true = refl
    same false = refl

    same_sender : (b : Bool) → (add_if b address envelope).mail_from ≡ envelope.mail_from
    same_sender true = refl
    same_sender false = refl

    moved :
        (b : Bool)
        → (add_if b address envelope).rcpt_tos ++ select (is_served l) addresses
          ≡ envelope.rcpt_tos
            ++ (if b
                then address ∷ select (is_served l) addresses
                else select (is_served l) addresses)
    moved true = append_assoc envelope.rcpt_tos (address ∷ []) (select (is_served l) addresses)
    moved false = refl

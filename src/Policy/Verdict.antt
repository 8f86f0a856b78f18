-- ===== src/Policy/Verdict.antt =====
-- The policy server and the LMTP handler judge a recipient alike.
use mathlib.Core.Option
use mail_router.Prelude.{
  ℕ, ◌≡◌, ◌≢◌, ◌⊎◌, inl, inr, refl, sym, subst, Text, Option, none, some, List, [], ◌∷◌, ◌++◌,
  String, codes,
}
use mail_router.Prelude.Dict
use mail_router.Prelude.Dict.{Dict}
use mail_router.Exec.{Result, ok, raise, pure, continue}
use mail_router.Python.{strip}
use mail_router.Lookup.{Lookup, allowed_domains, resolve}
use mail_router.Client.{DsConfig}
use mail_router.Address.{ParsedAddress, parse_recipient}
use mail_router.Receiver.Accept.{malformed_ne, unknown_ne}
use mail_router.Receiver.{Envelope, handle_rcpt, accepted_text, check_parsed, reply_of}
use mail_router.Policy.{evaluate, judge, judge_recipient, verdict_of, unknown_recipient}

-- Both accept, and the recipient joins the envelope; or both refuse, and the envelope stays; or both
-- meet the same exception. The lookup table ends the same.
abbrev pub Agrees :
    Text → Envelope → Result Text × Lookup → Result (String × Envelope) × Lookup → Type 0
Agrees address envelope (ok verdict, s) (ok (reply, envelope'), s') =
    (s ≡ s')
    × ((verdict ≡ codes "OK")
          × (reply ≡ accepted_text)
          × (envelope' ≡ record envelope { rcpt_tos = envelope.rcpt_tos ++ address ∷ [] })
        ⊎ (verdict ≡ unknown_recipient) × (reply ≢ accepted_text) × (envelope' ≡ envelope))
Agrees address envelope (raise e, s) (raise e', s') = (e ≡ e') × (s ≡ s')
Agrees address envelope _ _ = ⊥

resolved :
    (address : Text) (envelope : Envelope) (a : Result (Option DsConfig) × Lookup)
    → Agrees address envelope
        (continue a.0 (λ ds. pure (verdict_of ds)) a.1)
        (continue a.0 (λ ds. pure (reply_of ds address envelope)) a.1)
resolved address envelope (raise e, s) = (refl, refl)
resolved address envelope (ok none, s) = (refl, inr (refl, unknown_ne, refl))
resolved address envelope (ok (some ds), s) = (refl, inl (refl, refl, refl))

judged :
    (address : Text) (envelope : Envelope) (p : Option ParsedAddress) (s : Lookup)
    → Agrees address envelope (judge p s) (check_parsed p address envelope s)
judged address envelope none s = (refl, inr (refl, malformed_ne, refl))
judged address envelope (some p) s = resolved address envelope (resolve p.ds_id s)

listed :
    (c : ℕ) (address : Text) (envelope : Envelope) (a : Result (List Text) × Lookup)
    → Agrees
        (c ∷ address)
        envelope
        (continue a.0 (λ domains v. judge (parse_recipient v.python (c ∷ address) domains) v) a.1)
        (continue a.0
          (λ domains v.
            check_parsed (parse_recipient v.python (c ∷ address) domains) (c ∷ address) envelope v)
          a.1)
listed c address envelope (raise e, s) = (refl, refl)
listed c address envelope (ok domains, s) =
    judged (c ∷ address) envelope (parse_recipient s.python (c ∷ address) domains) s

-- On a request whose recipient, with no spaces around it, is not empty, the policy server's verdict
-- is OK exactly when the LMTP handler accepts that recipient over the same lookup table.
pub evaluate-agrees :
    (attrs : Dict Text) (c : ℕ) (address : Text) (envelope : Envelope) (s : Lookup)
    → strip (Option.get_or (Dict.get (codes "recipient") attrs) []) ≡ c ∷ address
    → Agrees (c ∷ address) envelope (evaluate attrs s) (handle_rcpt (c ∷ address) envelope s)
unfolding evaluate handle_rcpt
evaluate-agrees attrs c address envelope s e =
    subst
      (λ r.
        Agrees (c ∷ address) envelope (judge_recipient r s) (handle_rcpt (c ∷ address) envelope s))
      (sym e) (listed c address envelope (allowed_domains s))

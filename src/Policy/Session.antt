-- ===== src/Policy/Session.antt =====
-- What a connection to the policy server comes to.
use mathlib.Core.Option
use mail_router.Prelude.{
  ℕ, zero, suc, ◌+◌, ◌≤◌, ◌<◌, ◌≡◌, refl, ◌∙◌, ap, sym, true, false, Text, Option, none, some, List,
  [], ◌∷◌, ◌++◌, map, codes, length, length-append, All, arith, append_assoc, append-nil,
}
use mail_router.Prelude.Dict
use mail_router.Prelude.Dict.{Dict}
use mail_router.Exec.{Result, ok, raise, continue}
use mail_router.Python.{strip, rstrip_chars}
use mail_router.Lookup.{Lookup}
use mail_router.Lookup.Reload.{allowed_domains-static, resolve-static}
use mail_router.Client.{DsConfig}
use mail_router.Address.{ParsedAddress, parse_recipient}
use mail_router.Policy.{
  Incoming, line, broken, evaluate, judge, judge_recipient, verdict_of, unknown_recipient,
  empty_recipient, read_request, read_pair, partition,
}
use mail_router.Policy.Request.{
  print_request, print_pair, blank, IsPair, insert_all, read_request-print,
}
use mail_router.Policy.Connection.{
  Connection, reply, written, drain, Rounds, after_drain, answer, on_request, rounds, closing,
  recovered, finished, handle_client,
}

-- Reading a request never gives lines back, and takes at least one if any is there.
read_request-le :
    (attrs : Dict Text) (incoming : List Incoming)
    → length (read_request attrs incoming).1 ≤ length incoming
unfolding read_request
read_request-le attrs [] = omega arith
read_request-le attrs (broken e ∷ incoming) = omega arith
read_request-le attrs (line l ∷ incoming) = ground (
  arith,
  read_request-le (read_pair (partition b'=' (rstrip_chars (codes "\r\n") l)) attrs) incoming,
)

read_request-lt :
    (attrs : Dict Text) (i : Incoming) (incoming : List Incoming)
    → length (read_request attrs (i ∷ incoming)).1 ≤ length incoming
unfolding read_request
read_request-lt attrs (broken e) incoming = omega arith
read_request-lt attrs (line l) incoming = ground (
  arith,
  read_request-le (read_pair (partition b'=' (rstrip_chars (codes "\r\n") l)) attrs) incoming,
)

abbrev Ends : Option (Result Unit × Connection) → Type 0
Ends o = (a : Result Unit × Connection) × (o ≡ some a)

after_drain-Ends :
    (next : Rounds) (r : Result Unit) (c : Connection) → Ends (next c) → Ends (after_drain next r c)
after_drain-Ends next (raise e) c h = (_, refl)
after_drain-Ends next (ok u) c h = h

answer-Ends :
    (next : Rounds) (r : Result Text) (c : Connection)
    → ((d : Connection) → d.incoming ≡ c.incoming → Ends (next d))
    → Ends (answer next r c)
answer-Ends next (raise e) c h = (_, refl)
answer-Ends next (ok v) c h =
    after_drain-Ends next (drain (written (reply v) c)).0 (drain (written (reply v) c)).1 (h _ refl)

on_request-Ends :
    (next : Rounds) (r : Result (Option (Dict Text))) (c : Connection)
    → ((d : Connection) → d.incoming ≡ c.incoming → Ends (next d))
    → Ends (on_request next r c)
on_request-Ends next (raise e) c h = (_, refl)
on_request-Ends next (ok none) c h = (_, refl)
on_request-Ends next (ok (some attrs)) c h =
    let (r, l) = evaluate attrs c.lookup in answer-Ends next r (record c { lookup = l }) h

round-Ends :
    (next : Rounds) (c : Connection) (incoming : List Incoming)
    → ((d : Connection) → length d.incoming < length incoming → Ends (next d))
    → let (r, rest) = read_request [] incoming in
      Ends (on_request next r (record c { incoming = rest }))
round-Ends next c [] h = unfold read_request in (_, refl)
round-Ends next c (i ∷ rest) h =
    on_request-Ends next (read_request [] (i ∷ rest)).0
      (record c { incoming = (read_request [] (i ∷ rest)).1 })
      (λ d same. h d (omega (arith, read_request-lt [] i rest, ap length same)))

rounds-Ends : (n : ℕ) (c : Connection) → length c.incoming < n → Ends (rounds n c)
unfolding rounds
rounds-Ends zero c h = absurd (omega arith)
rounds-Ends (suc n) c h =
    round-Ends (rounds n) c c.incoming (λ d less. rounds-Ends n d (omega arith))

-- The rounds are enough for what comes in, up to where the peer closes its side or the stream breaks.
handle_client-ends :
    (c : Connection) → (d : Connection) × (handle_client c ≡ some d) × (d.closed ≡ true)
unfolding handle_client
handle_client-ends c =
    let ((r, d), e) = rounds-Ends (suc (length c.incoming)) c (omega arith) in
    (closing (recovered r d), ap finished e, refl)

-- The verdict on a request, where the lookup file is not reloaded.
abbrev verdict_on : Lookup → Option ParsedAddress → Text
verdict_on s none = unknown_recipient
verdict_on s (some p) = verdict_of (Dict.get (s.python.lower p.ds_id) s.table.data_sources)

abbrev verdict_for : Lookup → Text → Text
verdict_for s [] = empty_recipient
verdict_for s (c ∷ recipient) =
    verdict_on s (parse_recipient s.python (c ∷ recipient) s.table.hosts)

abbrev pub verdict : Lookup → Dict Text → Text
verdict s attrs = verdict_for s (strip (Option.get_or (Dict.get (codes "recipient") attrs) []))

module _ (s : Lookup) (static : s.table.auto_reload ≡ false) where
  judge-static : (p : Option ParsedAddress) → judge p s ≡ (ok (verdict_on s p), s)
  judge-static none = refl
  judge-static (some p) =
      ap
        (λ (a : Result (Option DsConfig) × Lookup).
          continue a.0 (λ ds v. (ok (verdict_of ds), v)) a.1)
        (resolve-static p.ds_id s static)

  judge_recipient-static :
      (recipient : Text) → judge_recipient recipient s ≡ (ok (verdict_for s recipient), s)
  judge_recipient-static [] = refl
  judge_recipient-static (c ∷ recipient) =
      ap
        (λ (a : Result (List Text) × Lookup).
          continue a.0 (λ domains v. judge (parse_recipient v.python (c ∷ recipient) domains) v)
            a.1)
        (allowed_domains-static s static)
      ∙ judge-static (parse_recipient s.python (c ∷ recipient) s.table.hosts)

  evaluate-static : (attrs : Dict Text) → evaluate attrs s ≡ (ok (verdict s attrs), s)
  unfolding evaluate
  evaluate-static attrs =
      judge_recipient-static (strip (Option.get_or (Dict.get (codes "recipient") attrs) []))

abbrev pub print_all : List (List (Text × Text)) → List Incoming
print_all [] = []
print_all (r ∷ rs) = print_request r ++ print_all rs

abbrev pub replies_to : Lookup → List (List (Text × Text)) → List Text
replies_to s rs = map (λ r. reply (verdict s (insert_all [] r))) rs

length-print_all : (rs : List (List (Text × Text))) → length rs ≤ length (print_all rs)
length-print_all [] = omega arith
length-print_all (r ∷ rs) = omega (
  arith,
  length-print_all rs,
  length-append {0} (map print_pair r ++ blank ∷ []) (print_all rs),
  length-append {0} (map print_pair r) (blank ∷ []),
)

rounds-answer :
    (n : ℕ) (rs : List (List (Text × Text))) (c : Connection)
    → length rs < n
    → c.lookup.table.auto_reload ≡ false
    → ((k : ℕ) → c.drains k ≡ none)
    → All (All IsPair) rs
    → (d : Connection) × (rounds n (record c { incoming = print_all rs }) ≡ some (ok tt, d))
      × (d.replies ≡ c.replies ++ replies_to c.lookup rs)
unfolding rounds
rounds-answer zero rs c h static up fine = absurd (omega arith)
rounds-answer (suc n) [] c h static up fine =
    (record c { incoming = [] }, unfold read_request in refl, sym (append-nil c.replies))
rounds-answer (suc n) (r ∷ rs) c h static up (p, ps) =
    let text = reply (verdict c.lookup (insert_all [] r)) in
    let (d, e, replies) =
      rounds-answer n rs (record (written text c) { drained = c.drained + 1 }) (omega arith) static
        up ps in
    (
      d,
      rw
          (
            read_request-print r [] (print_all rs) p,
            evaluate-static c.lookup static (insert_all [] r),
            up c.drained,
          )
          e,
      replies ∙ append_assoc c.replies (text ∷ []) (replies_to c.lookup rs),
    )

-- Requests as Postfix prints them, one after the other, are answered each by its verdict, in their
-- order, and by nothing else; the lookup file is not reloaded in between, and the stream does not
-- break. The connection is closed after them.
pub handle_client-answer :
    (rs : List (List (Text × Text))) (c : Connection)
    → c.lookup.table.auto_reload ≡ false
    → ((k : ℕ) → c.drains k ≡ none)
    → All (All IsPair) rs
    → c.incoming ≡ print_all rs
    → (d : Connection) × (handle_client c ≡ some d)
      × (d.replies ≡ c.replies ++ replies_to c.lookup rs)
      × (d.closed ≡ true)
unfolding handle_client
handle_client-answer rs c static up fine e =
    let (d, ends, replies) =
      rounds-answer (suc (length (print_all rs))) rs c (omega (arith, length-print_all rs)) static
        up fine in
    (
      closing d,
      ap finished (ap (λ l. rounds (suc (length l)) (record c { incoming = l })) e ∙ ends),
      replies,
      refl,
    )

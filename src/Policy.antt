-- ===== src/Policy.antt =====
-- The policy server of mail_router/policy.py: the reading of a request from the lines of a
-- connection, and its verdict.
pub mod Server
pub mod Group
pub mod Verdict
pub mod Connection
pub mod Request
pub mod Session
pub mod Tests
use mail_router.Prelude.{
  ℕ, zero, suc, ◌+◌, Bool, true, false, not, ◌&&◌, ◌||◌, Text, Option, none, some, List, [], ◌∷◌,
  ◌++◌, codes, ◌==◌, if◌then◌else◌,
}
use mathlib.Core.Option
use mail_router.Prelude.Dict
use mail_router.Prelude.Dict.{Dict}
use mail_router.Exec.{Exec, Error, Result, ok, raise, pure, continue, ◌>>=◌}
use mail_router.Python.{strip, rstrip_chars}
use mail_router.Lookup.{Lookup, allowed_domains, resolve}
use mail_router.Client.{DsConfig}
use mail_router.Address.{ParsedAddress, parse_recipient}

abbrev pub empty_recipient : Text
empty_recipient = codes "REJECT 550 5.1.1 Empty recipient"

abbrev pub unknown_recipient : Text
unknown_recipient = codes "REJECT 550 5.1.1 Unknown recipient"

abbrev pub verdict_of : Option DsConfig → Text
verdict_of none = unknown_recipient
verdict_of (some ds) = codes "OK"

abbrev pub judge : Option ParsedAddress → Exec Lookup Text
judge none s = (ok unknown_recipient, s)
judge (some parsed) s = (do ds ← resolve parsed.ds_id; pure (verdict_of ds)) s

abbrev pub judge_recipient : Text → Exec Lookup Text
judge_recipient [] s = (ok empty_recipient, s)
judge_recipient (c ∷ recipient) s =
    (do
      domains ← allowed_domains
      (λ v. judge (parse_recipient v.python (c ∷ recipient) domains) v))
      s

-- `_evaluate`
pub evaluate : Dict Text → Exec Lookup Text
evaluate attrs = judge_recipient (strip (Option.get_or (Dict.get (codes "recipient") attrs) []))

abbrev pub split_at : ℕ → Option (Text × Text) → Bool → Text → Option (Text × Text)
split_at c rest true s = some ([], s)
split_at c none false s = none
split_at c (some (l, r)) false s = some (c ∷ l, r)

-- `text.partition(sep)`: none if `sep` is not in the text
unfoldable pub partition : ℕ → Text → Option (Text × Text)
partition sep [] = none
partition sep (c ∷ s) = split_at c (partition sep s) (c == sep) s

abbrev pub read_pair : Option (Text × Text) → Dict Text → Dict Text
read_pair none attrs = attrs
read_pair (some (key, value)) attrs = Dict.insert (strip key) (strip value) attrs

abbrev pub is_nil : {A : Type 0} → List A → Bool
is_nil [] = true
is_nil (c ∷ s) = false

-- What the stream gives next: a line, decoded, with its end, or an exception of `readline`.
pub data Incoming : Type 0 where
  line : Text → Incoming
  broken : Error → Incoming

-- `_read_request`: the attributes, or none at the end of the stream, and what is left to come. A
-- line is empty only at the end of the stream, which is the end of the list.
unfoldable pub read_request :
    Dict Text → List Incoming → Result (Option (Dict Text)) × List Incoming
unfolding partition strip rstrip_chars
read_request attrs [] = (ok (if is_nil attrs then none else some attrs), [])
read_request attrs (broken e ∷ incoming) = (raise e, incoming)
read_request attrs (line l ∷ incoming) =
    let text = rstrip_chars (codes "\r\n") l in
    let rest = read_request (read_pair (partition b'=' text) attrs) incoming in
    if is_nil text then (ok (some attrs), incoming) else rest

-- ===== src/Policy/Connection.antt =====
-- `PolicyServer._handle_client` of mail_router/policy.py: one connection, from the first request to
-- the end. The stream is what it will give, in order, and the writer keeps what was written.
use mail_router.Prelude.{
  ℕ, zero, suc, ◌+◌, Bool, true, Text, Option, none, some, List, [], ◌∷◌, ◌++◌, codes, length,
}
use mail_router.Prelude.Dict.{Dict}
use mail_router.Exec.{Exec, Error, Result, ok, raise, connection_error}
use mail_router.Lookup.{Lookup}
use mail_router.Policy.{Incoming, evaluate, read_request}

-- `drains` says which call of `writer.drain` raises, and what.
pub record Connection : Type 0 where
  pub incoming : List Incoming
  pub lookup : Lookup
  pub replies : List Text
  pub drains : ℕ → Option Error
  pub drained : ℕ
  pub closed : Bool

-- `f"action={verdict}\n\n"`
abbrev pub reply : Text → Text
reply verdict = codes "action=" ++ (verdict ++ codes "\n\n")

abbrev pub deferred : Text
deferred = codes "action=DEFER_IF_PERMIT Mail router policy error\n\n"

abbrev pub written : Text → Connection → Connection
written text c = record c { replies = c.replies ++ text ∷ [] }

abbrev raised_or : Option Error → Result Unit
raised_or none = ok tt
raised_or (some e) = raise e

-- `await writer.drain()`
abbrev pub drain : Exec Connection Unit
drain c = (raised_or (c.drains c.drained), record c { drained = c.drained + 1 })

-- The `try` block with the loop, which has gone on for `n` rounds at most; none if it would go on.
abbrev pub Rounds : Type 0
Rounds = Connection → Option (Result Unit × Connection)

abbrev pub after_drain : Rounds → Result Unit → Rounds
after_drain next (raise e) c = some (raise e, c)
after_drain next (ok _) c = next c

abbrev pub answer : Rounds → Result Text → Rounds
answer next (raise e) c = some (raise e, c)
answer next (ok verdict) c =
    let (r, c') = drain (written (reply verdict) c) in after_drain next r c'

abbrev pub on_request : Rounds → Result (Option (Dict Text)) → Rounds
on_request next (raise e) c = some (raise e, c)
on_request next (ok none) c = some (ok tt, c)
on_request next (ok (some attrs)) c =
    let (r, l) = evaluate attrs c.lookup in answer next r (record c { lookup = l })

unfoldable pub rounds : ℕ → Rounds
unfolding read_request evaluate
rounds zero c = none
rounds (suc n) c =
    let (r, rest) = read_request [] c.incoming in
    on_request (rounds n) r (record c { incoming = rest })

abbrev pub closing : Connection → Connection
closing c = record c { closed = true }

-- The handlers: a broken connection is left, any other exception is answered first.
abbrev pub recovered : Result Unit → Connection → Connection
recovered (ok _) c = c
recovered (raise connection_error) c = c
recovered (raise e) c = (drain (written deferred c)).1

abbrev pub finished : Option (Result Unit × Connection) → Option Connection
finished none = none
finished (some (r, c)) = some (closing (recovered r c))

-- `_handle_client`: a request takes at least one line, so that there are no more rounds than lines
-- and one.
unfoldable pub handle_client : Connection → Option Connection
unfolding rounds
handle_client c = finished (rounds (suc (length c.incoming)) c)

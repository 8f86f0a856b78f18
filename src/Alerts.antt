-- ===== src/Alerts.antt =====
-- The alerts of mail_router/alerts.py: what is throttled and what is sent. `time.monotonic()` is read
-- in nanoseconds; whether the SMTP server takes a message is given, notification by notification.
pub mod Throttle
pub mod Tests
use mail_router.Prelude.{
  ℕ, ◌+◌, ◌*◌, Bool, true, false, not, ◌&&◌, Text, Option, none, some, List, [], ◌∷◌, ◌++◌, ltb,
  ◌==◌, if◌then◌else◌,
}
use mail_router.Prelude.Dict
use mail_router.Prelude.Dict.{Dict}
use mathlib.Core.Path.{◌≡◌}
use native.Mathlib.Omega.{arith}
use mail_router.Exec.{Exec, Result, ok, raise}

-- The fields of `AlertsConfig` that decide.
pub record AlertsConfig : Type 0 where
  pub enabled : Bool
  pub to_addresses : List Text
  pub throttle : ℕ

pub record Message : Type 0 where
  pub event : Text
  pub subject : Text
  pub body : Text

-- `last_sent` by event, the clock and the server by the number of readings and of messages, and the
-- messages that were handed to the server.
pub record Alerter : Type 0 where
  pub config : AlertsConfig
  pub last_sent : Dict ℕ
  pub monotonic : ℕ → ℕ
  pub readings : ℕ
  pub takes : ℕ → Bool
  pub tried : ℕ
  pub sent : List Message

abbrev pub nanoseconds : ℕ
nanoseconds = 1000000000

-- `self._throttle.setdefault(event, _ThrottleState()).last_sent`; 0.0 where there is no state yet
abbrev pub last_of : Option ℕ → ℕ
last_of none = 0
last_of (some t) = t

-- `state.last_sent and (now - state.last_sent) < throttle`, with `now` not before `last_sent`
abbrev pub is_throttled : ℕ → ℕ → ℕ → Bool
is_throttled throttle last now = not (last == 0) && ltb now (last + throttle * nanoseconds)

abbrev deliver : Message → Exec Alerter Bool
deliver m s =
    let s' : Alerter = record s { tried = s.tried + 1 } in
    if s.takes s.tried then (ok true, record s' { sent = s.sent ++ m ∷ [] }) else (ok false, s')

abbrev is_nil : List Text → Bool
is_nil [] = true
is_nil (t ∷ ts) = false

-- The part under the lock, and what follows it.
abbrev pub notify_at : ℕ → ℕ → Message → Exec Alerter Bool
notify_at last now m s =
    if is_throttled s.config.throttle last now
    then (ok false, record s { last_sent = Dict.insert m.event last s.last_sent })
    else deliver m (record s { last_sent = Dict.insert m.event now s.last_sent })

pub notify : Message → Exec Alerter Bool
notify m s =
    if not s.config.enabled
    then (ok false, s)
    else if is_nil s.config.to_addresses
    then (ok false, s)
    else notify_at (last_of (Dict.get m.event s.last_sent)) (s.monotonic s.readings) m
        (record s { readings = s.readings + 1 })

abbrev pub returns : {A : Type 0} → Result A → Bool
returns (ok _) = true
returns (raise _) = false

-- `notify` catches what the server raises, so it always returns.
pub notify-returns : (m : Message) (s : Alerter) → returns (notify m s).0 ≡ true
unfolding notify
notify-returns m s = ground arith

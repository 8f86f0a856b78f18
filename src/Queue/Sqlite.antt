-- ===== src/Queue/Sqlite.antt =====
-- What the code of mail_router/queue.py runs on: a SQLite connection and the clock, with the
-- exceptions of Python. A statement or a reading of the clock is one tick; which statements raise
-- and what the clock shows is given by the environment, tick by tick.
use mail_router.Prelude.{ℕ, ◌+◌, Bool, true, false, ◌||◌, Text, Option, List}
pub use mail_router.Exec.{
  Error, Result, ok, raise, database, type_error, pure, raises, continue, ◌>>=◌, ◌>>◌, handle,
  catch, then-pure,
}
use mail_router.Exec.{Exec}
use mail_router.Clock.{DateTime}
use mail_router.Queue.Schema.{Row}

pub record Environment : Type 0 where
  -- whether the statement at this tick raises `sqlite3.OperationalError`
  pub fails : ℕ → Bool
  -- the reading of `datetime.now(UTC)` at this tick
  pub clock : ℕ → DateTime
  -- how many ids SQLite uses up on an insertion that the unique index stops
  pub lost_ids : ℕ
  -- the order in which SQLite returns rows under `ORDER BY received_at`
  pub order_by_received : List Row → List Row
  -- `datetime.fromisoformat`; `none` for a ValueError
  pub fromisoformat : Text → Option DateTime

pub record World : Type 0 where
  pub env : Environment
  pub rows : List Row
  -- the highest id that was ever used, of `sqlite_sequence`
  pub sequence : ℕ
  -- what an open transaction goes back to
  pub saved : Option (List Row)
  pub closed : Bool
  pub tick : ℕ

abbrev pub Action : Type 0 → Type 0
Action = Exec World

abbrev pub next_tick : World → World
next_tick w = record w { tick = w.tick + 1 }

-- whether the next statement raises
abbrev pub is_down : World → Bool
is_down w = w.closed || w.env.fails w.tick

abbrev pub executed : {A : Type 0} → Bool → (World → A × World) → Action A
executed true statement w = (raise database, w)
executed false statement w = let (a, w') = statement w in (ok a, w')

-- `conn.execute(…)`: the statement runs whole, or raises and changes nothing.
abbrev pub execute : {A : Type 0} → (World → A × World) → Action A
execute statement w = executed (is_down w) statement (next_tick w)

-- `datetime.now(UTC)`
abbrev pub utc_now : Action DateTime
utc_now w = (ok (w.env.clock w.tick), next_tick w)

-- ===== src/Queue/Open.antt =====
-- `Queue.__init__`: the connection's settings and the schema, which change no row of a table that is
-- there already. How `mkdir` and `sqlite3.connect` end is given.
use mail_router.Prelude.{◌≡◌, refl, arith}
use mail_router.Queue.Sqlite.{World, Action, Result, ok, raise, execute, ◌>>◌}

abbrev statement : Action Unit
statement = execute (λ w. (tt, w))

-- `PRAGMA journal_mode`, `PRAGMA synchronous`, `PRAGMA foreign_keys` and the schema
unfoldable pub open_file : Result Unit → Action Unit
open_file connected = do (λ w. (connected, w)); statement; statement; statement; statement

pub open_file-same : (connected : Result Unit) (w : World) → (open_file connected w).1.rows ≡ w.rows
unfolding open_file
open_file-same (raise e) w = refl
open_file-same (ok _) w = ground arith

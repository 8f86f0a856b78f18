-- ===== src/Socket.antt =====
-- A server on a Unix socket, as `LMTPReceiver` of mail_router/receiver.py and `PolicyServer` of
-- mail_router/policy.py start and stop theirs: the file at the socket's path, its directory, and the
-- server object. A system call is one tick, and raises where the environment says so.
pub mod Lifecycle
use mail_router.Prelude.{ℕ, ◌+◌, Bool, true, false, Option, none, some, if◌then◌else◌}
use mail_router.Exec.{
  Exec, Error, Result, ok, raise, os_error, other_error, pure, raises, ◌>>=◌, ◌>>◌,
}

pub data Server : Type 0 where
  listening closed_server : Server

pub record Site : Type 0 where
  pub fails : ℕ → Bool
  pub has_directory : Bool
  -- the mode of what stands at the path, if anything does
  pub entry : Option ℕ
  -- `self._server`
  pub server : Option Server
  pub socket_mode : ℕ
  -- the mode of a new socket, by the process's umask
  pub new_mode : ℕ
  pub tick : ℕ

abbrev ended : Bool → Site → Site → Result Unit × Site
ended true before after = (raise os_error, before)
ended false before after = (ok tt, after)

abbrev ticked : Site → Site
ticked s = record s { tick = s.tick + 1 }

-- A system call that happens or raises.
abbrev pub operate : (Site → Site) → Exec Site Unit
operate change s = ended (s.fails s.tick) (ticked s) (change (ticked s))

-- `path.parent.mkdir(parents=True, exist_ok=True)`
abbrev pub make_directory : Exec Site Unit
make_directory = operate (λ s. record s { has_directory = true })

abbrev unlink_entry : Option ℕ → Exec Site Unit
unlink_entry none = operate (λ s. s)
unlink_entry (some _) = operate (λ s. record s { entry = none })

-- `with contextlib.suppress(FileNotFoundError): path.unlink()`
abbrev pub unlink : Exec Site Unit
unlink s = unlink_entry s.entry s

abbrev bind_at : Option ℕ → Exec Site Unit
bind_at none = operate (λ s. record s { entry = some s.new_mode; server = some listening })
bind_at (some _) = raises os_error

-- `create_unix_server`, `asyncio.start_unix_server`: nothing may stand at the path
abbrev pub create_server : Exec Site Unit
create_server s = bind_at s.entry s

abbrev with_mode : ℕ → Option ℕ → Option ℕ
with_mode mode none = none
with_mode mode (some _) = some mode

-- `os.chmod(path, mode)`
abbrev pub chmod : Exec Site Unit
chmod = operate (λ s. record s { entry = with_mode s.socket_mode s.entry })

-- `start`
unfoldable pub start : Exec Site Unit
start = do make_directory; unlink; create_server; chmod

abbrev close_server : Site → Site
close_server s = record s { server = some closed_server }

-- `serve_forever` up to the point where its task is cancelled: `async with` closes the server
abbrev pub serve : Option Server → Exec Site Unit
serve none s = (raise other_error, s)
serve (some _) s = (ok tt, close_server s)

unfoldable pub serve_forever : Exec Site Unit
serve_forever s = serve s.server s

abbrev pub stop_server : Option Server → Exec Site Unit
stop_server none s = (ok tt, s)
stop_server (some _) s = unlink (close_server s)

-- `stop`
unfoldable pub stop : Exec Site Unit
stop s = stop_server s.server s

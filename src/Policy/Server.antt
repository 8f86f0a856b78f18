-- ===== src/Policy/Server.antt =====
-- How `PolicyServer` of mail_router/policy.py starts and stops its socket: by the same steps as the
-- receiver.
use mail_router.Exec.{Exec, ◌>>◌}
use mail_router.Socket
use mail_router.Socket.{Site}

-- `start`
abbrev pub start_policy : Exec Site Unit
start_policy = do Socket.make_directory; Socket.unlink; Socket.create_server; Socket.chmod

-- `serve_forever`, cancelled
abbrev pub serve_policy : Exec Site Unit
serve_policy s = Socket.serve s.server s

-- `stop`
abbrev pub stop_policy : Exec Site Unit
stop_policy s = Socket.stop_server s.server s

-- ===== src/Cli.antt =====
-- mail_router/cli.py: the three services and the commands. What `argparse` makes of the arguments,
-- and what the services' connections do before a signal stops them, is given.
pub mod Shutdown
pub mod Launch
pub mod Sync
pub mod Admin
pub mod Tests
use mail_router.Prelude.{
  ℕ, Bool, true, false, Text, Option, none, some, List, [], ◌∷◌, ◌++◌, map, codes,
}
use mail_router.Exec.{Exec, Result, ok, raise, pure, raises, lift, within, finally, ◌>>=◌, ◌>>◌}
use mail_router.Json.{Json}
use mail_router.Lookup.{Lookup, open_table}
use mail_router.Socket
use mail_router.Socket.{Site}
use mail_router.Policy.Server.{start_policy, serve_policy, stop_policy}
use mail_router.Queue
use mail_router.Queue.Sqlite.{World}
use mail_router.Queue.Open.{open_file}
use mail_router.Worker.{Worker, run_forever}
use mail_router.LookupSync.Disk.{Disk}
use mail_router.LookupSync.Run.{SyncConfig, Services, sync_once}
use mail_router.Config.{Reader, Config, SyncSection, load}

-- A service with its socket, its lookup table and, for the receiver, its queue.
pub record Service : Type 0 where
  pub site : Site
  pub lookup : Lookup
  pub queue : World
  -- how `mkdir` and `sqlite3.connect` end
  pub connected : Result Unit

abbrev pub on_site : {A : Type 0} → Exec Site A → Exec Service A
on_site = within (λ p. p.site) (λ s p. record p { site = s })

abbrev pub on_lookup : {A : Type 0} → Exec Lookup A → Exec Service A
on_lookup = within (λ p. p.lookup) (λ l p. record p { lookup = l })

abbrev pub on_queue : {A : Type 0} → Exec World A → Exec Service A
on_queue = within (λ p. p.queue) (λ w p. record p { queue = w })

-- What connections do to the table and the queue until `stop.wait()` returns.
pub record Work : Type 0 where
  pub on_table : Lookup → Lookup
  pub on_rows : World → World

abbrev pub served : Work → Exec Service Unit
served work p = (ok tt, record p { lookup = work.on_table p.lookup; queue = work.on_rows p.queue })

-- The task of `serve_forever`, cancelled; how it ends is not looked at.
abbrev pub serve_task : Exec Service Unit
serve_task p = (ok tt, record p { site = (Socket.serve_forever p.site).1 })

-- The same of the policy server
abbrev pub stop_serving : Exec Service Unit
stop_serving p = (ok tt, record p { site = (serve_policy p.site).1 })

-- `_run_policy`, which has no queue
unfoldable pub run_policy : Bool → Work → Exec Service ℕ
run_policy reload work = do
  on_lookup (open_table reload)
  on_site start_policy
  served work
  stop_serving
  on_site stop_policy
  pure 0

abbrev pub close_queue : Exec Service Unit
close_queue p = (ok tt, record p { queue = Queue.close p.queue })

-- `_run_receiver`
unfoldable pub run_receiver : Bool → Work → Exec Service ℕ
run_receiver reload work = do
  on_lookup (open_table reload)
  (λ p. on_queue (open_file p.connected) p)
  on_site Socket.start
  served work
  serve_task
  on_site Socket.stop
  close_queue
  pure 0

abbrev pub close_worker : Exec Worker Unit
close_worker s = (ok tt, record s { queue = Queue.close s.queue })

-- `_run_worker`, stopped after `n` rounds; `closes` is how `client.close()` ends
unfoldable pub run_worker : Bool → Result Unit → Result Unit → ℕ → Exec Worker ℕ
run_worker reload connected closes n = do
  within (λ s. s.lookup) (λ l s. record s { lookup = l }) (open_table reload)
  within (λ s. s.queue) (λ w s. record s { queue = w }) (open_file connected)
  finally (run_forever n) (do lift closes; close_worker)
  pure 0

module _ (reader : Reader) where
  abbrev pub sync_config : Option (SyncSection reader) → Option SyncConfig
  sync_config none = none
  sync_config (some section) = some (record { url = section.url; api_key = section.api_key })

  -- The last part of `run_lookup_sync`
  abbrev pub sync_with : Services → Option SyncConfig → Exec Disk ℕ
  sync_with services none = pure 2
  sync_with services (some config) = sync_once services (some config)

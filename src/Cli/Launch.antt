-- ===== src/Cli/Launch.antt =====
-- The entry points of mail_router/cli.py: each loads the configuration, sets the logging up and then
-- runs its service or command. What `argparse` makes of the arguments is given, and so is what
-- reading the configuration file comes to.
use mail_router.Prelude.{ℕ, Bool, Text, Option, List}
use mail_router.Exec.{Exec, Result, ok, raise, lift, within, ◌>>=◌, ◌>>◌}
use mail_router.Json.{Json}
use mail_router.Config.{Reader, Config, load}
use mail_router.Logging.{Root, configure}
use mail_router.Queue.Schema.{State}
use mail_router.Queue.Sqlite.{World}
use mail_router.Worker.{Worker}
use mail_router.LookupSync.Disk.{Disk}
use mail_router.LookupSync.Run.{Services}
use mail_router.Cli.{Service, Work, run_policy, run_receiver, run_worker, sync_config, sync_with}
use mail_router.Cli.Admin.{Command, run_admin}

-- The root logger, and what stands at the paths that the configuration names.
pub record Process (S : Type 0) : Type 0 where
  pub root : Root
  pub world : S

abbrev on_root : {S A : Type 0} → Exec Root A → Exec (Process S) A
on_root = within (λ p. p.root) (λ r p. record p { root = r })

abbrev on_world : {S A : Type 0} → Exec S A → Exec (Process S) A
on_world = within (λ p. p.world) (λ w p. record p { world = w })

-- An outcome without the logger
abbrev pub outside : {S A : Type 0} → Result A × Process S → Result A × S
outside a = (a.0, a.1.world)

-- The levels that `logging` knows by name, and the identity of the new handler
module _ (reader : Reader) (is_level : Text → Bool) (handler : ℕ) where
  -- `Config.load(args.config)`, where the file is read as a document or is not
  abbrev load_config : Result Json → Result (Config reader)
  load_config (ok raw) = load reader raw
  load_config (raise e) = raise e

  -- `configure_logging(config.log_level)`
  abbrev set_up : Config reader → Exec Root Unit
  set_up config = configure is_level reader.upper handler config.log_level

  abbrev launch : {S A : Type 0} → (Config reader → Exec S A) → Result Json → Exec (Process S) A
  launch run raw = do
    config ← lift (load_config raw)
    on_root (set_up config)
    on_world (run config)

  -- `run_policy`
  abbrev policy_command : Work → Result Json → Exec (Process Service) ℕ
  policy_command work = launch (λ config. run_policy config.lookup_reload work)

  -- `run_receiver`
  abbrev receiver_command : Work → Result Json → Exec (Process Service) ℕ
  receiver_command work = launch (λ config. run_receiver config.lookup_reload work)

  -- `run_worker`
  abbrev worker_command : Result Unit → Result Unit → ℕ → Result Json → Exec (Process Worker) ℕ
  worker_command connected closes n =
      launch (λ config. run_worker config.lookup_reload connected closes n)

  -- `run_lookup_sync`
  unfoldable pub run_lookup_sync : Services → Result Json → Exec (Process Disk) ℕ
  run_lookup_sync services =
      launch (λ config. sync_with reader services (sync_config reader config.lookup_sync))

  -- `run_admin` from `Config.load` on
  abbrev admin_command :
      (Json → Text)
      → ((State → Option ℕ) → Text)
      → Result Unit
      → Command
      → Result Json
      → Exec (Process World) (List Text × ℕ)
  admin_command dumps counts_text connected command =
      launch (λ _. run_admin dumps counts_text connected command)

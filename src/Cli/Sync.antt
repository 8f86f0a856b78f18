-- ===== src/Cli/Sync.antt =====
-- The exit code of the lookup sync's command.
use mail_router.Prelude.{
  ℕ, ◌≡◌, ◌≢◌, ◌↔◌, refl, ap, Bool, true, Text, Option, none, some, [], arith, inl, inr,
}
use mail_router.Exec.{Result, ok, raise}
use mail_router.Json.{Json}
use mail_router.LookupSync.Disk.{Disk}
use mail_router.LookupSync.Run.{SyncConfig, Services, sync_once}
use mail_router.LookupSync.Outcome.{IsSynced, sync_once-IsSynced}
use mail_router.Config.{Reader, Config, SyncSection, load}
use mail_router.Cli.{sync_config, sync_with}
use mail_router.Cli.Launch.{Process, outside, run_lookup_sync}
use mail_router.Logging.{configure}

synced :
    (services : Services) (w : Disk) (config : SyncConfig) (a : Result ℕ × Disk)
    → IsSynced services w.files (some config) a
    → a.0 ≢ ok 2
synced services w config (ok n, v) (inl (zero, _)) = ground arith
synced services w config (ok n, v) (inr (r, (payload, (_, inl (zero, _))))) = ground arith
synced services w config (ok n, v) (inr (r, (payload, (_, inr (one, _))))) = ground arith
synced services w config (raise e, v) h = λ k. cc

abbrev HasCode : (reader : Reader) → Services → Option (SyncSection reader) → Disk → Type 0
HasCode reader services section w =
    (((sync_with reader services (sync_config reader section) w).0 ≡ ok 2) ↔ (section ≡ none))
    × ((sync_with reader services (sync_config reader section) w ≡ (ok 2, w)) ↔ (section ≡ none))

sync_with-HasCode :
    (reader : Reader) (services : Services) (section : Option (SyncSection reader)) (w : Disk)
    → w.history ≡ []
    → HasCode reader services section w
sync_with-HasCode reader services none w fresh = ((λ _. refl, λ _. refl), (λ _. refl, λ _. refl))
sync_with-HasCode reader services (some section) w fresh =
    let config : SyncConfig = record { url = section.url; api_key = section.api_key } in
    let never : (sync_once services (some config) w).0 ≢ ok 2 =
      synced services w config (sync_once services (some config) w)
        (sync_once-IsSynced services (some config) w fresh).0 in
    ((λ two. absurd (never two), λ e. cc), (λ two. absurd (never (ap (λ a. a.0) two)), λ e. cc))

-- With a configuration that is loaded and whose level there is, the command comes to the exit code 2
-- exactly if the configuration has no section for it, whatever the server answers and the disk
-- refuses; and it does so with the disk as it was exactly then, too.
run_lookup_sync-code :
    (reader : Reader) (is_level : Text → Bool) (handler : ℕ) (services : Services) (raw : Json)
    (c : Config reader) (p : Process Disk)
    → load reader raw ≡ ok c
    → is_level (reader.upper c.log_level) ≡ true
    → p.world.history ≡ []
    → (((run_lookup_sync reader is_level handler services (ok raw) p).0 ≡ ok 2)
        ↔ (c.lookup_sync ≡ none))
      × ((outside (run_lookup_sync reader is_level handler services (ok raw) p) ≡ (ok 2, p.world))
          ↔ (c.lookup_sync ≡ none))
unfolding run_lookup_sync configure
run_lookup_sync-code reader is_level handler services raw c p loaded level fresh =
    rw (loaded, level) (sync_with-HasCode reader services c.lookup_sync p.world fresh)

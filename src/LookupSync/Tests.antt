-- ===== src/LookupSync/Tests.antt =====
-- Syncs of a lookup file.
use mail_router.Prelude.{
  ℕ, ◌≡◌, refl, Bool, true, false, none, some, [], codes, text_eq, ◌==◌, if◌then◌else◌,
}
use mail_router.Json.{Json, str, obj, arr, nil, cons, end, field}
use mail_router.Exec.{ok, raise, value_error}
use mail_router.LookupSync.{valid, validate_payload}
use mail_router.LookupSync.Disk.{StoredFile, Disk}
use mail_router.LookupSync.Run.{SyncConfig, Response, response, Services, sync_once}
use mail_router.LookupSync.Outcome.{IsSynced, AreSafe, sync_once-IsSynced}
use mail_router.LookupSync.Update.{IsDone, sync_once-updates}

abbrev document : Json
document = obj (
    field (codes "hosts") (arr (cons (str (codes "shpd.cz")) nil)) (
      field (codes "data_sources")
        (obj (
          field (codes "demo")
            (obj (
              field (codes "api_url") (str (codes "https://demo"))
                (field (codes "api_token") (str (codes "t")) end)))
            end))
        end))

abbrev fresh : Response
fresh = record { status_code = 200; text = codes "{}"; etag = some (codes "v2") }

-- The server answers to all with the same document, whose text is "{}" here.
abbrev services : Services
services = record {
  get = λ url headers. response fresh;
  loads = λ text. if text_eq text (codes "{}") then some document else none;
  dumps = λ payload. codes "{}";
  repr = λ s. s;
}

abbrev config : SyncConfig
config = record { url = codes "https://hosting"; api_key = codes "k" }

abbrev old_file : StoredFile
old_file = record { content = codes "{ }\n"; mode = 384 }

abbrev disk : (ℕ → Bool) → Disk
disk fails = record {
  env = record { fails = fails; torn = λ n. 1; is_encodable = λ s. true };
  files = record {
    lookup = some old_file;
    etag = some (record old_file { content = codes "v1\n" });
    temps = [];
  };
  history = [];
  tick = 0;
}

document-valid : validate_payload services.repr document ≡ valid document
unfolding validate_payload
document-valid = refl

-- The call that replaces the lookup file fails.
abbrev full_disk : Disk
full_disk = disk (λ n. n == 4)

sync_once-IsSynced_example :
    IsSynced services full_disk.files (some config) (sync_once services (some config) full_disk)
    × AreSafe services full_disk.files
        (some config)
        (sync_once services (some config) full_disk).1.history
sync_once-IsSynced_example = sync_once-IsSynced services (some config) full_disk refl

replace-fails : (sync_once services (some config) full_disk).0 ≡ ok 1
unfolding sync_once
replace-fails = refl

replace-fails-files : (sync_once services (some config) full_disk).1.files ≡ full_disk.files
unfolding sync_once
replace-fails-files = refl

sync_once-updates_example :
    IsDone services fresh document
      (disk (λ n. false)).files
      (sync_once services (some config) (disk (λ n. false)))
sync_once-updates_example =
    sync_once-updates services config (disk (λ n. false)) fresh document document (λ n. refl) refl
      refl refl refl refl document-valid

-- A text that cannot be encoded ends the sync with an exception and leaves its temporary file.
abbrev narrow_disk : Disk
narrow_disk = record (disk (λ n. false)) {
  env = record { fails = λ n. false; torn = λ n. 1; is_encodable = λ s. false };
}

unencodable : (sync_once services (some config) narrow_disk).0 ≡ raise value_error
unfolding sync_once
unencodable = refl

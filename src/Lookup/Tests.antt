-- ===== src/Lookup/Tests.antt =====
-- A lookup file that is damaged after it was loaded, and one with a document that was checked.
use mail_router.Prelude.{◌≡◌, refl, true, false, some, none, [], ◌∷◌, codes}
use mail_router.Exec.{ok, raise, value_error}
use mail_router.Json.{Json, str, obj, arr, nil, cons, end, field}
use mail_router.Lookup.{Lookup, resolve, load}
use mail_router.LookupSync.{validate_payload, valid, invalid}
use mail_router.Json.{Fields}
use mail_router.LookupSync.Disk.{StoredFile, Disk, owner_only}
use mail_router.LookupSync.Run.{SyncConfig, Response, response, Services, lookup_text, sync_once}
use mail_router.Lookup.Synced.{AnswersBy, sync_once-Answers}
use mail_router.Lookup.Valid.{load-valid}

abbrev damaged : Lookup
damaged = record {
  table = record {
    auto_reload = true;
    mtime = some 1;
    hosts = codes "shpd.cz" ∷ [];
    data_sources =
        (
          codes "demo",
          record {
            ds_id = codes "demo";
            api_url = codes "https://demo";
            api_token = str (codes "t");
          },
        )
        ∷ [];
  };
  python = record { lower = λ s. s; str_of = λ _. [] };
  disk = λ _. some (record { mtime = 2; document = none });
  tick = 0;
}

resolve_raised : (resolve (codes "demo") damaged).0 ≡ raise value_error
unfolding resolve
resolve_raised = refl

abbrev document : Json
document = obj (
    field (codes "hosts") (arr (cons (str (codes "shpd.cz")) nil)) (
      field (codes "data_sources")
        (obj (
          field (codes "demo")
            (obj (
              field (codes "api_url") (str (codes "https://demo/"))
                (field (codes "api_token") (str (codes "t")) end)))
            end))
        end))

abbrev repaired : Lookup
repaired = record damaged { disk = λ _. some (record { mtime = 3; document = some document }) }

document-valid : validate_payload (λ s. s) document ≡ valid document
unfolding validate_payload
document-valid = refl

load-valid_example : (load repaired).0 ≡ ok tt
load-valid_example = load-valid (λ s. s) document document 3 repaired document-valid refl

-- A host that is blank is refused.
blank-invalid :
    validate_payload (λ s. s) (obj (field (codes "hosts") (arr (cons (str (codes " ")) nil)) end))
    ≡ invalid (codes "'hosts' must be a list of non-empty strings")
unfolding validate_payload
blank-invalid = refl

abbrev fresh : Response
fresh = record { status_code = 200; text = codes "{}"; etag = none }

-- Both the answer and what is written are read as the document.
abbrev services : Services
services = record {
  get = λ url headers. response fresh;
  loads = λ text. some document;
  dumps = λ payload. codes "{}";
  repr = λ s. s;
}

abbrev disk : Disk
disk = record {
  env = record { fails = λ n. false; torn = λ n. 1; is_encodable = λ s. true };
  files = record { lookup = none; etag = none; temps = [] };
  history = [];
  tick = 0;
}

abbrev config : SyncConfig
config = record { url = codes "https://hosting"; api_key = codes "k" }

abbrev written : StoredFile
written = record { content = lookup_text services document; mode = owner_only }

sync-written : (sync_once services (some config) disk).1.files.lookup ≡ some written
unfolding sync_once
sync-written = refl

sync_once-Answers_example : (fs : Fields) × (document ≡ obj fs) × AnswersBy repaired fs
sync_once-Answers_example =
    sync_once-Answers services config disk fresh document document repaired 3 written (λ n. refl)
      refl refl refl refl refl document-valid refl sync-written refl (λ n. refl) refl

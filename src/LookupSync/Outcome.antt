-- ===== src/LookupSync/Outcome.antt =====
-- How `sync_once` ends, whatever the server answers and the disk refuses.
use mail_router.Prelude.{
  ℕ, ◌+◌, ◌≡◌, refl, sym, subst, ap, Text, Option, none, some, List, [], All, arith, Bool-cases,
  inl, inr, ◌⊎◌, ◌==◌,
}
use mail_router.Prelude.Dict.{Dict}
use mail_router.Json.{Json}
use mail_router.Exec.{Result, ok, raise, other_error}
use mail_router.LookupSync.{Validation, valid, invalid, validate_payload}
use mail_router.LookupSync.Disk.{Files, Disk}
use mail_router.LookupSync.Atomic.{SameSeen}
use mail_router.LookupSync.Safety.{IsUpdating, IsStored, store-IsStored}
use mail_router.LookupSync.Run.{
  SyncConfig, Response, Fetch, response, timeout, http_error, crash, Services, headers_of,
  on_validation, on_document, on_response, on_fetch, sync_once, store, text_of,
}

-- The payload was validated, in a response 200 of the server.
pub record IsFetched (services : Services) (config : SyncConfig) (r : Response) (payload : Json)
    : Type 0 where
  pub answered : (headers : Dict Text) × (services.get config.url headers ≡ response r)
  pub status : r.status_code ≡ 200
  pub validated :
      (document : Json) × (services.loads r.text ≡ some document)
      × (validate_payload services.repr document ≡ valid payload)

module _ (services : Services) (start : Files) where
  -- Both files are as they were, or an update with a validated payload is on its way.
  abbrev pub IsSafe : SyncConfig → Files → Type 0
  IsSafe config f =
      SameSeen f start
      ⊎ ((r : Response) × ((payload : Json) × (IsFetched services config r payload
              × IsUpdating services r payload start f)))

  abbrev pub IsUpdated : SyncConfig → Result ℕ × Disk → Type 0
  IsUpdated config a =
      (r : Response) × ((payload : Json) × (IsFetched services config r payload
          × IsStored services r payload start a))

  abbrev pub IsSynced : Option SyncConfig → Result ℕ × Disk → Type 0
  IsSynced none (ok n, w) = (n ≡ 2) × SameSeen w.files start
  IsSynced none (raise e, w) = ⊥
  IsSynced (some config) (ok n, w) = (n ≡ 0) × SameSeen w.files start ⊎ IsUpdated config (ok n, w)
  IsSynced (some config) (raise e, w) =
      (e ≡ other_error) × SameSeen w.files start ⊎ IsUpdated config (raise e, w)

  abbrev pub AreSafe : Option SyncConfig → List Files → Type 0
  AreSafe none fs = fs ≡ []
  AreSafe (some config) fs = All (IsSafe config) fs

  module _ (config : SyncConfig) (w : Disk) (here : w.files ≡ start)
      (past : All (IsSafe config) w.history) where
    abbrev Good : Result ℕ × Disk → Type 0
    Good a = IsSynced (some config) a × All (IsSafe config) a.1.history

    same : SameSeen w.files start
    same = (ap (λ (f : Files). f.lookup) here, ap (λ (f : Files). f.etag) here)

    nothing : Good (ok 0, w)
    nothing = (inl (refl, same), past)

    updated : (a : Result ℕ × Disk) → IsUpdated config a → All (IsSafe config) a.1.history → Good a
    updated (ok n, v) h moments = (inr h, moments)
    updated (raise e, v) h moments = (inr h, moments)

    on_response-Good :
        (r : Response)
        → (headers : Dict Text) × (services.get config.url headers ≡ response r)
        → Good (on_response services r w)
    on_response-Good r answered = elim (Bool-cases (r.status_code == 304)) [
      | inl e ↦ rw e nothing
      | inr e ↦ elim (Bool-cases (r.status_code == 200)) [
        | inr f ↦ rw (e, f) nothing
        | inl f ↦ rw (e, f) (on_document-Good (ground arith) (services.loads r.text) refl)
      ]
    ]
      where
        on_valid :
            r.status_code ≡ 200
            → (document payload : Json) → services.loads r.text ≡ some document
            → validate_payload services.repr document ≡ valid payload
            → Good (on_validation services r (valid payload) w)
        on_valid status document payload loaded checked =
            let (done, moments) =
              store-IsStored services r payload start w here (IsSafe config)
                (λ f u. inr (r, (payload, (fetched, u)))) past in
            updated (store services r payload w) (r, (payload, (fetched, done))) moments
          where
            fetched : IsFetched services config r payload
            fetched = record {
              answered = answered;
              status = status;
              validated = (document, loaded, checked);
            }

        on_validation-Good :
            r.status_code ≡ 200
            → (document : Json) → services.loads r.text ≡ some document
            → (v : Validation) → validate_payload services.repr document ≡ v
            → Good (on_validation services r v w)
        on_validation-Good status document loaded (invalid reason) checked = nothing
        on_validation-Good status document loaded (valid payload) checked =
            on_valid status document payload loaded checked

        on_document-Good :
            r.status_code ≡ 200
            → (d : Option Json) → services.loads r.text ≡ d
            → Good (on_document services r d w)
        on_document-Good status none loaded = nothing
        on_document-Good status (some document) loaded =
            on_validation-Good status document loaded (validate_payload services.repr document) refl

    on_fetch-Good :
        (headers : Dict Text) (f : Fetch)
        → services.get config.url headers ≡ f
        → Good (on_fetch services f w)
    on_fetch-Good headers (response r) e = on_response-Good r (headers, e)
    on_fetch-Good headers timeout e = nothing
    on_fetch-Good headers http_error e = nothing
    on_fetch-Good headers crash e = (inl (refl, same), past)

-- However the server answers and whatever system call fails, `sync_once` without a configuration
-- returns 2 and touches nothing; else it returns 0 with both files as they were or both new, or 1
-- or an exception with both as they were or only the lookup file new. A new lookup file has a
-- payload that was validated, from a response 200. At every moment in between the two files are as
-- they were, or the lookup file is new, or both are: no moment has a torn file, or the new ETag
-- beside the old lookup file.
pub sync_once-IsSynced :
    (services : Services) (config : Option SyncConfig) (w : Disk)
    → w.history ≡ []
    → IsSynced services w.files config (sync_once services config w)
      × AreSafe services w.files config (sync_once services config w).1.history
unfolding sync_once
sync_once-IsSynced services none w fresh = ((refl, (refl, refl)), fresh)
sync_once-IsSynced services (some config) w fresh =
    on_fetch-Good services w.files config (record w { tick = w.tick + 1 }) refl
      (subst (All (IsSafe services w.files config)) (sym fresh) tt)
      (headers_of config (text_of (w.env.fails w.tick) w.files.etag)) _ refl

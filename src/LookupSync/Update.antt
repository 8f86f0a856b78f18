-- ===== src/LookupSync/Update.antt =====
-- A sync that nothing goes wrong in, and one that finds nothing new.
use mail_router.Prelude.{ℕ, ◌+◌, ◌≡◌, refl, ◌∙◌, ap, true, false, Text, some}
use mail_router.Json.{Json}
use mail_router.Exec.{Result, ok}
use mail_router.LookupSync.{valid, validate_payload}
use mail_router.LookupSync.Disk.{
  Target, lookup_file, etag_file, Files, put, Disk, owner_only, write_atomic,
}
use mail_router.LookupSync.Run.{
  SyncConfig, Response, response, Services, headers_of, lookup_text, etag_text, store, on_response,
  sync_once, text_of,
}
use mail_router.LookupSync.Safety.{new_etag, complete}

-- The replacement, where no call fails.
IsWritten : Target → Text → ℕ → Disk → Result Unit × Disk → Type 0
IsWritten target content mode w a =
    (v : Disk) × (a ≡ (ok tt, v))
    × (v.files ≡ put target (record { content = content; mode = mode }) w.files)
    × (v.env ≡ w.env)

write_atomic-done :
    (target : Target) (content : Text) (mode : ℕ) (w : Disk)
    → ((n : ℕ) → w.env.fails n ≡ false)
    → w.env.is_encodable content ≡ true
    → IsWritten target content mode w (write_atomic target content mode w)
unfolding write_atomic IsWritten
write_atomic-done target content mode w up fits =
    rw (up w.tick, fits, up (w.tick + 1), up (w.tick + 1 + 1), up (w.tick + 1 + 1 + 1))
      (_, refl, refl, refl)

module _ (services : Services) (r : Response) (payload : Json) where
  -- Both files are those of the response.
  abbrev pub IsDone : Files → Result ℕ × Disk → Type 0
  IsDone start a = (a.0 ≡ ok 0) × (a.1.files ≡ complete services r payload start)

  store-IsDone :
      (w : Disk)
      → ((n : ℕ) → w.env.fails n ≡ false)
      → w.env.is_encodable (lookup_text services payload) ≡ true
      → w.env.is_encodable (etag_text r) ≡ true
      → IsDone w.files (store services r payload w)
  unfolding IsWritten
  store-IsDone w up fits fits' =
      let (v, e, files, env) =
        write_atomic-done lookup_file (lookup_text services payload) owner_only w up fits in
      let (u, e', files', _) =
        write_atomic-done etag_file (etag_text r) owner_only v (λ n. rw env (up n))
          (rw env fits') in
      rw (e, e') (refl, files' ∙ ap (put etag_file (new_etag services r payload w.files)) files)

  on_response-IsDone :
      (w : Disk) (document : Json)
      → r.status_code ≡ 200
      → services.loads r.text ≡ some document
      → validate_payload services.repr document ≡ valid payload
      → IsDone w.files (store services r payload w)
      → IsDone w.files (on_response services r w)
  on_response-IsDone w document status loaded checked done = rw (status, loaded, checked) done

-- Where no system call fails and both texts can be encoded, a response 200 with a document that
-- `validate_payload` lets through leaves the lookup file with the document, the file beside it with
-- the response's ETag, and no other change; the exit code is 0.
pub sync_once-updates :
    (services : Services) (config : SyncConfig) (w : Disk) (r : Response) (document payload : Json)
    → ((n : ℕ) → w.env.fails n ≡ false)
    → w.env.is_encodable (lookup_text services payload) ≡ true
    → w.env.is_encodable (etag_text r) ≡ true
    → services.get config.url (headers_of config (text_of false w.files.etag)) ≡ response r
    → r.status_code ≡ 200
    → services.loads r.text ≡ some document
    → validate_payload services.repr document ≡ valid payload
    → IsDone services r payload w.files (sync_once services (some config) w)
unfolding sync_once
sync_once-updates services config w r document payload up fits fits' answered status loaded
      checked =
    rw (up w.tick, answered)
      (on_response-IsDone services r payload (record w { tick = w.tick + 1 }) document status loaded
        checked (store-IsDone services r payload (record w { tick = w.tick + 1 }) up fits fits'))

-- ===== src/Lookup/Synced.antt =====
-- After a sync of the lookup file, the table answers by the document that was fetched.
use mail_router.Prelude.{
  ℕ, ◌+◌, ◌≡◌, refl, sym, ap, ◌∙◌, true, false, Text, Option, none, some, List, [], codes, map,
  Option-cases, inl, inr,
}
use mail_router.Prelude.Dict
use mail_router.Prelude.Dict.{Dict}
use mail_router.Exec.{Result, ok}
use mail_router.Json.{Json, arr, obj, end, Items, Fields, either, field_of}
use mail_router.Client.{DsConfig}
use mail_router.LookupSync.{valid, validate_payload, value_at, are_hosts}
use mail_router.LookupSync.Disk.{StoredFile, Files, Disk}
use mail_router.LookupSync.Run.{
  SyncConfig, Response, response, Services, headers_of, lookup_text, etag_text, sync_once, text_of,
}
use mail_router.LookupSync.Update.{sync_once-updates}
use mail_router.Lookup.{
  Lookup, File, load, load_document, hosts_of, sources_of, allowed_domains, resolve, maybe_reload,
  reload_when, same_mtime,
}
use mail_router.Lookup.Valid.{validated, sources_of-Returns}
use mail_router.Lookup.Document.{texts, fields_in, IsAnswer, hosts_of-texts, sources_of-IsAnswer}

-- The document's hosts and data sources, as the table keeps them.
record IsRead (s : Lookup) (fs : Fields) (hosts : List Text) (sources : Dict DsConfig)
    : Type 0 where
  hosts_read : hosts_of s.python (value_at (codes "hosts") fs) ≡ ok hosts
  sources_read :
      sources_of s.python (either (value_at (codes "data_sources") fs) (obj end)) ≡ ok sources

abbrev content_of : Option StoredFile → Text
content_of none = []
content_of (some f) = f.content

-- The hosts of the document in lower case, and for each id in lower case the entry that the document
-- has for it: what the two queries answer.
pub record AnswersBy (s : Lookup) (fs : Fields) : Type 0 where
  pub hosts : Items
  pub hosts_there : value_at (codes "hosts") fs ≡ arr hosts
  pub domains : (allowed_domains s).0 ≡ ok (map s.python.lower (texts hosts))
  pub resolves :
      (ds_id : Text)
      → (answer : Option DsConfig) × ((resolve ds_id s).0 ≡ ok answer)
        × IsAnswer s.python
            (fields_in (value_at (codes "data_sources") fs))
            (s.python.lower ds_id)
            answer

-- What the table answers that took both.
abbrev Answers : Lookup → List Text → Dict DsConfig → Type 0
Answers s hosts sources =
    ((allowed_domains s).0 ≡ ok hosts)
    × ((ds_id : Text) → (resolve ds_id s).0 ≡ ok (Dict.get (s.python.lower ds_id) sources))

module _ (s : Lookup) (fs : Fields) (hosts : List Text) (sources : Dict DsConfig)
    (read : IsRead s fs hosts sources) (here : are_hosts (value_at (codes "hosts") fs) ≡ true) where
  -- A table that took both from the document.
  abbrev Took : Result Unit × Lookup → Type 0
  Took a =
      (a.0 ≡ ok tt)
      × (a.1.table.hosts ≡ hosts)
      × (a.1.table.data_sources ≡ sources)
      × (a.1.python ≡ s.python)

  load_document-Took : (t : Lookup) → t.python ≡ s.python → Took (load_document (some (obj fs)) t)
  load_document-Took t same = elim (Option-cases (field_of (codes "hosts") fs)) [
    | inl e ↦ cc (rw e at here)
    | inr (v, e) ↦
        let found : hosts_of s.python v ≡ ok hosts = rw e at read.hosts_read in
        rw (e, same, found, read.sources_read) (refl, refl, refl, refl)
  ]

  reloaded :
      (f : File)
      → s.table.auto_reload ≡ true
      → ((n : ℕ) → s.disk n ≡ some f)
      → same_mtime f.mtime s.table.mtime ≡ false
      → f.document ≡ some (obj fs)
      → Took (reload_when s.table.auto_reload s)
  unfolding reload_when maybe_reload load
  reloaded f auto there newer document =
      rw (auto, there s.tick, newer, there (s.tick + 1), document)
        (load_document-Took
          (record s { table = record s.table { auto_reload = true }; tick = s.tick + 1 + 1 }) refl)

  Took-Answers : Took (reload_when s.table.auto_reload s) → Answers s hosts sources
  unfolding allowed_domains resolve
  Took-Answers (done, listed, found, same) =
      (rw (done, listed) refl, λ ds_id. rw (done, found, same) refl)

-- After a sync in which nothing fails and that got a valid document, a table that reloads, and that
-- finds the lookup file with another mtime and `json.loads` of what was written, answers both
-- queries without an exception. The allowed domains are the document's hosts in lower case, in their
-- order. An id resolves to the last entry of the document's data sources whose name is the id, both
-- in lower case: to its token, its url without slashes at the end and the id in lower case; and to
-- nothing if there is no such entry. `json.loads` reads back what `json.dumps` made of the document.
pub sync_once-Answers :
    (services : Services) (config : SyncConfig) (w : Disk) (r : Response) (document payload : Json)
    (s : Lookup) (mtime : ℕ) (written : StoredFile)
    → ((n : ℕ) → w.env.fails n ≡ false)
    → w.env.is_encodable (lookup_text services payload) ≡ true
    → w.env.is_encodable (etag_text r) ≡ true
    → services.get config.url (headers_of config (text_of false w.files.etag)) ≡ response r
    → r.status_code ≡ 200
    → services.loads r.text ≡ some document
    → validate_payload services.repr document ≡ valid payload
    → services.loads (lookup_text services payload) ≡ some payload
    → (sync_once services (some config) w).1.files.lookup ≡ some written
    → s.table.auto_reload ≡ true
    → ((n : ℕ)
        → s.disk n ≡ some (record { mtime = mtime; document = services.loads written.content }))
    → same_mtime mtime s.table.mtime ≡ false
    → (fs : Fields) × (document ≡ obj fs) × AnswersBy s fs
sync_once-Answers services config w r document payload s mtime written up fits fits' answered status
      loaded checked reads new auto there newer =
    let (_, files) =
      sync_once-updates services config w r document payload up fits fits' answered status loaded
        checked in
    let content : written.content ≡ lookup_text services payload =
      ap content_of (sym new ∙ ap (λ (f : Files). f.lookup) files) in
    let (fs, e, e', listed, found) = validated services.repr document payload checked in
    let (hosts, there', h) = hosts_of-texts s.python (value_at (codes "hosts") fs) listed in
    let (sources, k) =
      sources_of-Returns services.repr s.python (value_at (codes "data_sources") fs) found in
    let names = map s.python.lower (texts hosts) in
    let read : IsRead s fs names sources = record { hosts_read = h; sources_read = k } in
    let (domains, found_by) = Took-Answers s fs names sources read listed (
      reloaded s fs names sources read listed
        (record { mtime = mtime; document = services.loads written.content }) auto there newer
        (ap services.loads content ∙ reads ∙ ap some e')) in
    (
      fs,
      e,
      record {
        hosts = hosts;
        hosts_there = there';
        domains = domains;
        resolves = λ ds_id. (
          Dict.get (s.python.lower ds_id) sources,
          found_by ds_id,
          sources_of-IsAnswer s.python (value_at (codes "data_sources") fs) sources k
              (s.python.lower ds_id),
        );
      },
    )

-- ===== src/Lookup/Failure.antt =====
-- A lookup file that cannot be read into a table.
use mail_router.Prelude.{
  codes, ◌+◌, ◌≡◌, refl, Bool, true, false, Text, Option, none, some, Bool-cases, inl, inr,
}
use mail_router.Exec.{Exec, Error, Result, ok, raise, continue}
use mail_router.Json
use mail_router.Json.{Json, Items, Fields, end, arr, obj, null, nil, either}
use mail_router.Lookup.{
  Lookup, LookupTable, File, load, load_document, load_file, maybe_reload, reload_if, reload_when,
  allowed_domains, resolve, hosts_of, sources_of, same_mtime,
}

-- An exception leaves this table.
abbrev pub Keeps : {A : Type 0} → LookupTable → Result A × Lookup → Type 0
Keeps t (ok _, s) = Unit
Keeps t (raise e, s) = s.table ≡ t

module _ {A B : Type 0} (t : LookupTable) where
  continue-Keeps :
      (r : Result A) (f : A → Exec Lookup B) (s : Lookup)
      → s.table ≡ t
      → ((a : A) → Keeps t (f a s))
      → Keeps t (continue r f s)
  continue-Keeps (ok a) f s same h = h a
  continue-Keeps (raise e) f s same h = same

  -- A last step that cannot fail.
  last-Keeps :
      (a : Result A × Lookup) (f : Lookup → B)
      → Keeps t a
      → Keeps t (continue a.0 (λ _ v. (ok (f v), v)) a.1)
  last-Keeps (ok x, s) f h = tt
  last-Keeps (raise e, s) f h = h

load_document-Keeps : (d : Option Json) (s : Lookup) → Keeps s.table (load_document d s)
load_document-Keeps none s = refl
load_document-Keeps (some raw) s =
    continue-Keeps s.table (Json.get raw (codes "hosts") (arr nil)) _ s refl (λ listed.
      continue-Keeps s.table (hosts_of s.python listed) _ s refl (λ hosts.
        continue-Keeps s.table (Json.get raw (codes "data_sources") null) _ s refl (λ found.
          continue-Keeps s.table (sources_of s.python (either found (obj end))) _ s refl
            (λ sources. tt))))

load_file-Keeps : (f : Option File) (s : Lookup) → Keeps s.table (load_file f s)
load_file-Keeps none s = tt
load_file-Keeps (some f) s = load_document-Keeps f.document s

load-Keeps : (s : Lookup) → Keeps s.table (load s)
unfolding load
load-Keeps s = load_file-Keeps (s.disk s.tick) (record s { tick = s.tick + 1 })

reload_if-Keeps : (f : Option File) (s : Lookup) → Keeps s.table (reload_if f s)
reload_if-Keeps none s = tt
reload_if-Keeps (some f) s = elim (Bool-cases (same_mtime f.mtime s.table.mtime)) [
  | inl e ↦ rw e tt
  | inr e ↦ rw e (load-Keeps s)
]

reload_when-Keeps : (b : Bool) (s : Lookup) → Keeps s.table (reload_when b s)
unfolding reload_when maybe_reload
reload_when-Keeps true s = reload_if-Keeps (s.disk s.tick) (record s { tick = s.tick + 1 })
reload_when-Keeps false s = tt

raised :
    {A : Type 0} (t : LookupTable) (a : Result A × Lookup) (e : Error)
    → Keeps t a
    → a.0 ≡ raise e
    → a.1.table ≡ t
raised t (ok x, s) e h eq = cc
raised t (raise x, s) e h eq = h

-- A `resolve` that raises, as it does on a file that is no JSON or has no such entries as it should,
-- leaves the table loaded before as it was, its mtime included.
resolve-raise :
    (ds_id : Text) (s : Lookup) (e : Error)
    → (resolve ds_id s).0 ≡ raise e
    → (resolve ds_id s).1.table ≡ s.table
unfolding resolve
resolve-raise ds_id s e h =
    raised s.table (resolve ds_id s) e
      (last-Keeps s.table (reload_when s.table.auto_reload s) _
        (reload_when-Keeps s.table.auto_reload s))
      h

-- An `allowed_domains` that raises leaves the table loaded before as it was.
allowed_domains-raise :
    (s : Lookup) (e : Error)
    → (allowed_domains s).0 ≡ raise e
    → (allowed_domains s).1.table ≡ s.table
unfolding allowed_domains
allowed_domains-raise s e h =
    raised s.table (allowed_domains s) e
      (last-Keeps s.table (reload_when s.table.auto_reload s) _
        (reload_when-Keeps s.table.auto_reload s))
      h

-- ===== src/Lookup/Valid.antt =====
-- What `validate_payload` lets through, the lookup table can load.
use mail_router.Prelude.{
  ℕ, ◌+◌, ◌≡◌, refl, sym, ap, ap₂, ◌∙◌, subst, true, Text, none, some, [], ◌∷◌, codes, arith,
  Bool-cases, Option-cases, inl, inr,
}
use mail_router.Prelude.Dict
use mail_router.Prelude.Dict.{Dict}
use mail_router.Exec.{Result, ok, raise, continue}
use mail_router.Json.{
  Json, null, bool, num, str, arr, obj, Items, nil, cons, Fields, end, field, field_of, either,
}
use mail_router.Python.{Python}
use mail_router.Client.{DsConfig}
use mail_router.LookupSync.{
  valid, validate_payload, is_named, all_named, are_hosts, value_at, entry_reason, entries_reason,
  sources_reason,
}
use mail_router.Lookup.{
  Lookup, load, load_document, hosts_of, lowered_items, sources_of, sources_from, config_of,
  config_with, url_of, item_at,
}

-- The code returned.
abbrev pub Returns : {A : Type 0} → Result A → Type 0
Returns {A} r = (a : A) × (r ≡ ok a)

pub named : (v : Json) → is_named v ≡ true → (s : Text) × (v ≡ str s)
named (str s) h = (s, refl)
named null h = cc
named (bool b) h = cc
named (num n z) h = cc
named (arr vs) h = cc
named (obj fs) h = cc

named_field :
    (k : Text) (fs : Fields)
    → is_named (value_at k fs) ≡ true
    → (s : Text) × (field_of k fs ≡ some (str s))
named_field k fs h = elim (Option-cases (field_of k fs)) [
  | inl e ↦ cc (rw e at h)
  | inr (v, e) ↦ let (s, f) = named v (rw e at h) in (s, e ∙ ap some f)
]

lowered_items-Returns :
    (py : Python) (vs : Items) → all_named vs ≡ true → Returns (lowered_items py vs)
unfolding lowered_items
lowered_items-Returns py nil h = ([], refl)
lowered_items-Returns py (cons v vs) h =
    let (s, e) = named v (ground arith) in
    let (rest, f) = lowered_items-Returns py vs (ground arith) in
    (
      py.lower s ∷ rest,
      subst (λ x. lowered_items py (cons x vs) ≡ ok (py.lower s ∷ rest)) (sym e) (rw f refl),
    )

pub hosts_of-Returns : (py : Python) (v : Json) → are_hosts v ≡ true → Returns (hosts_of py v)
unfolding hosts_of
hosts_of-Returns py (arr vs) h = lowered_items-Returns py vs h
hosts_of-Returns py null h = cc
hosts_of-Returns py (bool b) h = cc
hosts_of-Returns py (num n z) h = cc
hosts_of-Returns py (str s) h = cc
hosts_of-Returns py (obj fs) h = cc

item_at-field :
    (k : Text) (fs : Fields) (v : Json) → field_of k fs ≡ some v → item_at (obj fs) k ≡ ok v
item_at-field k fs v e = rw (item_at, e) refl

module _ (repr : Text → Text) (py : Python) where
  config_of-Returns :
      (key : Text) (entry : Json)
      → entry_reason repr key entry ≡ none
      → Returns (config_of py key entry)
  config_of-Returns key (obj fs) h =
      let (url, e) = named_field (codes "api_url") fs (ground arith) in
      let (token, f) = named_field (codes "api_token") fs (ground arith) in
      (
        _,
        ap₂ (λ t u. config_with (py.lower key) t (url_of u))
            (item_at-field (codes "api_token") fs (str token) f)
            (item_at-field (codes "api_url") fs (str url) e),
      )
  config_of-Returns key null h = cc
  config_of-Returns key (bool b) h = cc
  config_of-Returns key (num n z) h = cc
  config_of-Returns key (str s) h = cc
  config_of-Returns key (arr vs) h = cc

  sources_from-Returns :
      (fs : Fields) (d : Dict DsConfig)
      → entries_reason repr fs ≡ none
      → Returns (sources_from py fs d)
  unfolding sources_from
  sources_from-Returns end d h = (d, refl)
  sources_from-Returns (field key entry fs) d h =
      next (config_of py key entry) (config_of-Returns key entry (ground arith))
        (λ c. sources_from-Returns fs (Dict.insert (py.lower key) c d) (ground arith))
    where
      next :
          (r : Result DsConfig)
          → Returns r
          → ((c : DsConfig) → Returns (sources_from py fs (Dict.insert (py.lower key) c d)))
          → Returns (elim r [
            | raise e ↦ raise e
            | ok c ↦ sources_from py fs (Dict.insert (py.lower key) c d)
          ])
      next (ok c) returned rest = rest c
      next (raise e) (c, returned) rest = cc

  pub sources_of-Returns :
      (v : Json) → sources_reason repr v ≡ none → Returns (sources_of py (either v (obj end)))
  unfolding sources_of
  sources_of-Returns (obj end) h = sources_from-Returns end [] h
  sources_of-Returns (obj (field k v fs)) h = sources_from-Returns (field k v fs) [] h
  sources_of-Returns null h = cc
  sources_of-Returns (bool b) h = cc
  sources_of-Returns (num n z) h = cc
  sources_of-Returns (str s) h = cc
  sources_of-Returns (arr vs) h = cc

continue-ok :
    {A B S : Type 0} (r : Result A) (f : A → S → Result B × S) (s : S)
    → Returns r
    → ((a : A) → Returns (f a s).0)
    → Returns (continue r f s).0
continue-ok (ok a) f s h k = k a
continue-ok (raise e) f s (a, h) k = cc

load_document-Returns :
    (repr : Text → Text) (fs : Fields) (s : Lookup)
    → are_hosts (value_at (codes "hosts") fs) ≡ true
    → sources_reason repr (value_at (codes "data_sources") fs) ≡ none
    → Returns (load_document (some (obj fs)) s).0
load_document-Returns repr fs s hosts sources = elim (Option-cases (field_of (codes "hosts") fs)) [
  | inl e ↦ cc (rw e at hosts)
  | inr (v, e) ↦ rw e (
      continue-ok (hosts_of s.python v) _ s (hosts_of-Returns s.python v (rw e at hosts)) (λ listed.
        continue-ok (sources_of s.python (either (value_at (codes "data_sources") fs) (obj end))) _
          s (sources_of-Returns repr s.python (value_at (codes "data_sources") fs) sources)
          (λ found. (tt, refl))))
]

-- What is let through is a dict with a list of hosts, and with a dict of data sources.
pub validated :
    (repr : Text → Text) (payload document : Json)
    → validate_payload repr payload ≡ valid document
    → (fs : Fields) × (payload ≡ obj fs)
      × (document ≡ obj fs)
      × (are_hosts (value_at (codes "hosts") fs) ≡ true)
      × (sources_reason repr (value_at (codes "data_sources") fs) ≡ none)
unfolding validate_payload
validated repr (obj fs) document h = elim (Bool-cases (are_hosts (value_at (codes "hosts") fs))) [
  | inr e ↦ cc (rw e at h)
  | inl e ↦ elim (Option-cases (sources_reason repr (value_at (codes "data_sources") fs))) [
    | inr (reason, f) ↦ cc (rw (e, f) at h)
    | inl f ↦ (fs, refl, cc (rw (e, f) at h), e, f)
  ]
]
validated repr null document h = cc
validated repr (bool b) document h = cc
validated repr (num n z) document h = cc
validated repr (str t) document h = cc
validated repr (arr vs) document h = cc

-- A lookup file with the document that `validate_payload` returned is loaded without an exception.
pub load-valid :
    (repr : Text → Text) (payload document : Json) (mtime : ℕ) (s : Lookup)
    → validate_payload repr payload ≡ valid document
    → s.disk s.tick ≡ some (record { mtime = mtime; document = some document })
    → (load s).0 ≡ ok tt
unfolding load
load-valid repr payload document mtime s h there =
    let (fs, _, e, hosts, sources) = validated repr payload document h in
    rw (there, e) (load_document-Returns repr fs (record s { tick = s.tick + 1 }) hosts sources).1

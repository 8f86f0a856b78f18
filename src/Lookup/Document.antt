-- ===== src/Lookup/Document.antt =====
-- A lookup document, described on its own, and what the table makes of it.
use mail_router.Prelude.{
  ◌≡◌, refl, sym, ap, ◌∙◌, subst, true, Text, Option, none, some, List, [], ◌∷◌, ◌⊎◌, map, codes,
  arith, text_eq, text_eq_iff, Bool-cases, inl, inr, if◌then◌else◌,
}
use mail_router.Prelude.Dict
use mail_router.Prelude.Dict.{Dict}
use mail_router.Exec.{Result, ok, raise, key_error, attribute_error}
use mail_router.Json.{
  Json, null, bool, num, str, arr, obj, Items, nil, cons, Fields, end, field, field_of, either,
  is_true,
}
use mail_router.Python.{Python, rstrip_chars}
use mail_router.Client.{DsConfig}
use mail_router.LookupSync.{all_named, are_hosts}
use mail_router.Lookup.{
  hosts_of, lowered_items, sources_of, sources_from, config_of, config_with, url_of,
}
use mail_router.Lookup.Valid.{named}

-- The texts of a list
abbrev pub texts : Items → List Text
texts nil = []
texts (cons (str s) vs) = s ∷ texts vs
texts (cons _ vs) = texts vs

-- The fields of a dict; another value has none.
abbrev pub fields_in : Json → Fields
fields_in (obj fs) = fs
fields_in _ = end

-- The last entry whose name in lower case is the id
abbrev pub entry_for : Python → Text → Fields → Option Json
entry_for py id end = none
entry_for py id (field name entry fs) = elim (entry_for py id fs) [
  | some later ↦ some later
  | none ↦ if text_eq id (py.lower name) then some entry else none
]

-- The entry is a dict with a text for its url and with a token.
pub record IsEntry (id : Text) (entry : Json) (c : DsConfig) : Type 0 where
  pub fields : Fields
  pub url : Text
  pub is_dict : entry ≡ obj fields
  pub url_there : field_of (codes "api_url") fields ≡ some (str url)
  pub token_there : field_of (codes "api_token") fields ≡ some c.api_token
  pub api_url : c.api_url ≡ rstrip_chars (codes "/") url
  pub ds_id : c.ds_id ≡ id

-- What is answered for an id: the entry that has it as its name, and nothing without one.
abbrev pub IsAnswer : Python → Fields → Text → Option DsConfig → Type 0
IsAnswer py fs id none = entry_for py id fs ≡ none
IsAnswer py fs id (some c) = (entry : Json) × (entry_for py id fs ≡ some entry) × IsEntry id entry c

pub hosts_of-texts :
    (py : Python) (v : Json)
    → are_hosts v ≡ true
    → (vs : Items) × (v ≡ arr vs) × (hosts_of py v ≡ ok (map py.lower (texts vs)))
unfolding hosts_of lowered_items
hosts_of-texts py (arr vs) h = (vs, refl, go vs h)
  where
    go : (ws : Items) → all_named ws ≡ true → lowered_items py ws ≡ ok (map py.lower (texts ws))
    go nil h = refl
    go (cons v ws) h =
        let (s, e) = named v (ground arith) in
        let rest = go ws (ground arith) in
        subst (λ x. lowered_items py (cons x ws) ≡ ok (map py.lower (texts (cons x ws)))) (sym e)
          (rw rest refl)
hosts_of-texts py null h = cc
hosts_of-texts py (bool b) h = cc
hosts_of-texts py (num n z) h = cc
hosts_of-texts py (str s) h = cc
hosts_of-texts py (obj fs) h = cc

module _ (py : Python) where
  -- The token and the url are there.
  built :
      (id : Text) (fs : Fields) (u t : Json) (c : DsConfig)
      → field_of (codes "api_url") fs ≡ some u
      → field_of (codes "api_token") fs ≡ some t
      → config_with id (ok t) (url_of (ok u)) ≡ ok c
      → IsEntry id (obj fs) c
  built id fs (str url) t c e e' h =
      let whole : ◌≡◌ {A = DsConfig}
          (record { ds_id = id; api_url = rstrip_chars (codes "/") url; api_token = t }) c =
        cc in
      record {
        fields = fs;
        url = url;
        is_dict = refl;
        url_there = e;
        token_there = e' ∙ ap (λ (k : DsConfig). some k.api_token) whole;
        api_url = ap (λ (k : DsConfig). k.api_url) (sym whole);
        ds_id = ap (λ (k : DsConfig). k.ds_id) (sym whole);
      }
  built id fs null t c e e' h = cc
  built id fs (bool b) t c e e' h = cc
  built id fs (num n z) t c e e' h = cc
  built id fs (arr vs) t c e e' h = cc
  built id fs (obj es) t c e e' h = cc

  config_of-IsEntry :
      (name : Text) (entry : Json) (c : DsConfig)
      → config_of py name entry ≡ ok c
      → IsEntry (py.lower name) entry c
  config_of-IsEntry name (obj fs) c h =
      go (field_of (codes "api_url") fs) (field_of (codes "api_token") fs) refl refl h
    where
      item : Option Json → Result Json
      item o = elim o [ none ↦ raise key_error | some v ↦ ok v ]

      go :
          (u t : Option Json)
          → field_of (codes "api_url") fs ≡ u
          → field_of (codes "api_token") fs ≡ t
          → config_with (py.lower name) (item t) (url_of (item u)) ≡ ok c
          → IsEntry (py.lower name) (obj fs) c
      go (some u) (some t) e e' h = built (py.lower name) fs u t c e e' h
      go none none e e' h = cc
      go none (some t) e e' h = cc
      go (some u) none e e' h = absurd (no_token (url_of (ok u)) h)
        where
          no_token : (r : Result Text) → ¬ (config_with (py.lower name) (raise key_error) r ≡ ok c)
          no_token (ok url) = λ h. cc
          no_token (raise x) = λ h. cc
  config_of-IsEntry name null c h = cc
  config_of-IsEntry name (bool b) c h = cc
  config_of-IsEntry name (num n z) c h = cc
  config_of-IsEntry name (str s) c h = cc
  config_of-IsEntry name (arr vs) c h = cc

  -- What the loop leaves under an id: the configuration of its entry, or what was there.
  abbrev Left : Fields → Dict DsConfig → Dict DsConfig → Text → Type 0
  Left fs d found id =
      ((entry_for py id fs ≡ none) × (Dict.get id found ≡ Dict.get id d))
      ⊎ (c : DsConfig) × (entry : Json) × (entry_for py id fs ≡ some entry)
        × IsEntry id entry c
        × (Dict.get id found ≡ some c)

  sources_from-Left :
      (fs : Fields) (d found : Dict DsConfig)
      → sources_from py fs d ≡ ok found
      → (id : Text) → Left fs d found id
  unfolding sources_from
  sources_from-Left end d found h id = inl (refl, cc)
  sources_from-Left (field name entry fs) d found h id =
      go (config_of py name entry) refl h
        (λ c h'. sources_from-Left fs (Dict.insert (py.lower name) c d) found h' id)
    where
      first :
          (c : DsConfig)
          → IsEntry (py.lower name) entry c
          → Left fs (Dict.insert (py.lower name) c d) found id
          → Left (field name entry fs) d found id
      first c is_entry (inr (b, later, e, is_later, there)) =
          inr (b, later, rw e refl, is_later, there)
      first c is_entry (inl (e, same)) = elim (Bool-cases (text_eq id (py.lower name))) [
        | inl mine ↦
            let same_id : id ≡ py.lower name = (text_eq_iff id (py.lower name)).0 mine in
            inr (
              c,
              entry,
              rw (e, mine) refl,
              subst (λ x. IsEntry x entry c) (sym same_id) is_entry,
              same ∙ Dict.get-insert id (py.lower name) c d ∙ rw mine refl,
            )
        | inr other ↦
            inl (rw (e, other) refl, same ∙ Dict.get-insert id (py.lower name) c d ∙ rw other refl)
      ]

      go :
          (r : Result DsConfig)
          → config_of py name entry ≡ r
          → (elim r as (λ _. Result (Dict DsConfig)) [
            | raise e ↦ raise e
            | ok c ↦ sources_from py fs (Dict.insert (py.lower name) c d)
          ])
            ≡ ok found
          → ((c : DsConfig)
              → sources_from py fs (Dict.insert (py.lower name) c d) ≡ ok found
              → Left fs (Dict.insert (py.lower name) c d) found id)
          → Left (field name entry fs) d found id
      go (raise e) read h rest = cc
      go (ok c) read h rest = first c (config_of-IsEntry name entry c read) (rest c h)

-- What a table that has loaded the data sources answers for an id.
pub sources_of-IsAnswer :
    (py : Python) (v : Json) (found : Dict DsConfig)
    → sources_of py (either v (obj end)) ≡ ok found
    → (id : Text) → IsAnswer py (fields_in v) id (Dict.get id found)
unfolding sources_of
sources_of-IsAnswer py v found h id = go v h
  where
    done : (fs : Fields) → Left py fs [] found id → IsAnswer py fs id (Dict.get id found)
    done fs (inl (e, missing)) = subst (IsAnswer py fs id) (sym missing) e
    done fs (inr (c, entry, e, is_entry, there)) =
        subst (IsAnswer py fs id) (sym there) (entry, e, is_entry)

    other :
        (w : Json)
        → fields_in w ≡ end
        → sources_of py w ≡ raise attribute_error
        → sources_of py (either w (obj end)) ≡ ok found
        → IsAnswer py (fields_in w) id (Dict.get id found)
    other w none_there fails h = elim (Bool-cases (is_true w)) [
      | inl e ↦ cc (rw (e, fails) at h)
      | inr e ↦
          subst (λ fs. IsAnswer py fs id (Dict.get id found)) (sym none_there)
            (done end (sources_from-Left py end [] found (rw e at h) id))
    ]

    go :
        (w : Json)
        → sources_of py (either w (obj end)) ≡ ok found
        → IsAnswer py (fields_in w) id (Dict.get id found)
    go (obj end) h = done end (sources_from-Left py end [] found h id)
    go (obj (field k x fs)) h =
        done (field k x fs) (sources_from-Left py (field k x fs) [] found h id)
    go null h = other null refl refl h
    go (bool b) h = other (bool b) refl refl h
    go (num n z) h = other (num n z) refl refl h
    go (str s) h = other (str s) refl refl h
    go (arr vs) h = other (arr vs) refl refl h

-- ===== src/Config/Required.antt =====
-- What a document must have to be loaded.
use mail_router.Prelude.{◌≡◌, refl, ap, ◌∙◌, subst, true, Text, Option, none, some, codes}
use mail_router.Result.{ok, raise, ◌>>=◌, key_error, >>=-eq-ok, >>=-returned}
use mail_router.Json.{Json, null, bool, num, str, arr, obj, Fields, field_of, get}
use mail_router.Lookup.{item_at}
use mail_router.Config.{
  Reader, Config, load, read_worker, read_alerts, section, optional_section, path,
  read_optional_sync,
}

-- The document is a dict that has the text at the key.
abbrev pub HasText : Json → Text → Text → Type 0
HasText raw k p = (fs : Fields) × (raw ≡ obj fs) × (field_of k fs ≡ some (str p))

path-eq : (v : Json) (p : Text) → path v ≡ ok p → v ≡ str p
path-eq (str s) p h = cc
path-eq null p h = cc
path-eq (bool b) p h = cc
path-eq (num n z) p h = cc
path-eq (arr vs) p h = cc
path-eq (obj fs) p h = cc

item_at-eq :
    (raw : Json) (k : Text) (v : Json)
    → item_at raw k ≡ ok v
    → (fs : Fields) × (raw ≡ obj fs) × (field_of k fs ≡ some v)
item_at-eq (obj fs) k v h = go (field_of k fs) refl h
  where
    go :
        (o : Option Json)
        → field_of k fs ≡ o
        → elim o [ none ↦ raise key_error | some u ↦ ok u ] ≡ ok v
        → (gs : Fields) × (obj fs ≡ obj gs) × (field_of k gs ≡ some v)
    go none e h = cc
    go (some u) e h = (fs, refl, e ∙ cc)
item_at-eq null k v h = cc
item_at-eq (bool b) k v h = cc
item_at-eq (num n z) k v h = cc
item_at-eq (arr vs) k v h = cc
item_at-eq (str s) k v h = cc

abbrev HasPaths : (reader : Reader) → Json → Config reader → Type 0
HasPaths reader raw c =
    HasText raw (codes "policy_socket") c.policy_socket
    × HasText raw (codes "lmtp_socket") c.lmtp_socket
    × HasText raw (codes "queue_db") c.queue_db
    × HasText raw (codes "lookup_file") c.lookup_file

ok-injective : {A : Type 0} {a b : A} → ok a ≡ ok b → a ≡ b
ok-injective h = cc

path_at-HasText : (raw : Json) (k p : Text) → (item_at raw k >>= path) ≡ ok p → HasText raw k p
path_at-HasText raw k p h =
    let (v, found, read) = >>=-eq-ok (item_at raw k) path h in
    let (fs, e, f) = item_at-eq raw k v found in (fs, e, f ∙ ap some (path-eq v p read))

-- Where the configuration is loaded, the document is a dict that has the four paths as texts, and
-- they are those of the configuration.
load-HasText :
    (reader : Reader) (raw : Json) (c : Config reader)
    → load reader raw ≡ ok c
    → HasText raw (codes "policy_socket") c.policy_socket
      × HasText raw (codes "lmtp_socket") c.lmtp_socket
      × HasText raw (codes "queue_db") c.queue_db
      × HasText raw (codes "lookup_file") c.lookup_file
unfolding load
load-HasText reader raw c = >>=-returned (section (codes "worker") raw) _ (λ worker_raw _.
    >>=-returned (section (codes "alerts") raw) _ (λ alerts_raw _.
      >>=-returned (optional_section (codes "lookup_sync") raw) _ (λ sync_raw _.
        >>=-returned (item_at raw (codes "policy_socket") >>= path) _ (λ p hp.
          >>=-returned (item_at raw (codes "lmtp_socket") >>= path) _ (λ l hl.
            >>=-returned (item_at raw (codes "queue_db") >>= path) _ (λ q hq.
              >>=-returned (item_at raw (codes "lookup_file") >>= path) _ (λ f hf.
                >>=-returned (get raw (codes "lookup_reload") (bool true)) _ (λ reload _.
                  >>=-returned (read_worker reader worker_raw) _ (λ worker _.
                    >>=-returned (read_alerts reader alerts_raw) _ (λ alerts _.
                      >>=-returned (read_optional_sync reader sync_raw) _ (λ sync _.
                        >>=-returned (get raw (codes "log_level") (str (codes "INFO"))) _
                          (λ level _ h. subst (HasPaths reader raw) (ok-injective h) (
                            path_at-HasText raw (codes "policy_socket") p hp,
                            path_at-HasText raw (codes "lmtp_socket") l hl,
                            path_at-HasText raw (codes "queue_db") q hq,
                            path_at-HasText raw (codes "lookup_file") f hf,
                          )))))))))))))

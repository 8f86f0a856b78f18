-- ===== src/Lookup/Reload.antt =====
-- When the lookup table reads its file.
use mail_router.Prelude.{◌≡◌, refl, Bool, true, false, Text}
use mail_router.Prelude.Dict
use mail_router.Exec.{Exec, ok, continue}
use mail_router.Lookup.{Lookup, allowed_domains, resolve, reload_when}

module _ {A : Type 0} (f : Exec Lookup A) (s : Lookup) where
  static : (b : Bool) → b ≡ false → continue (reload_when b s).0 (λ _. f) (reload_when b s).1 ≡ f s
  unfolding reload_when
  static true h = cc
  static false h = refl

-- Without reloading, the hosts are those of the table, and nothing changes.
pub allowed_domains-static :
    (s : Lookup) → s.table.auto_reload ≡ false → allowed_domains s ≡ (ok s.table.hosts, s)
unfolding allowed_domains
allowed_domains-static s h = static (λ v. (ok v.table.hosts, v)) s s.table.auto_reload h

pub resolve-static :
    (ds_id : Text) (s : Lookup)
    → s.table.auto_reload ≡ false
    → resolve ds_id s ≡ (ok (Dict.get (s.python.lower ds_id) s.table.data_sources), s)
unfolding resolve
resolve-static ds_id s h =
    static (λ v. (ok (Dict.get (v.python.lower ds_id) v.table.data_sources), v)) s
      s.table.auto_reload h

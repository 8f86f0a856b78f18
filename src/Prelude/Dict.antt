-- ===== src/Prelude/Dict.antt =====
-- A Python dict keyed by texts, in insertion order.
use mail_router.Prelude.Tests.{if◌then◌else◌}
use mail_router.Prelude.Texts.{Text, text_eq, text_eq_iff, text_eq_refl}
use mathlib.Core.Path.{◌≡◌, refl}
use mathlib.Core.List.{List, [], ◌∷◌}
use mathlib.Core.Option.{Option, none, some}
use native.Mathlib.Omega.{arith}

abbrev pub Dict {ℓ} : Type ℓ → Type ℓ
Dict V = List (Text × V)

module _ {ℓ} {V : Type ℓ} where
  -- `d.get(k)`
  abbrev pub get : Text → Dict V → Option V
  get k [] = none
  get k ((j, v) ∷ d) = if text_eq k j then some v else get k d

  -- `d[k] = v`
  abbrev pub insert : Text → V → Dict V → Dict V
  insert k v [] = (k, v) ∷ []
  insert k v (e ∷ d) = if text_eq k e.0 then (k, v) ∷ d else e ∷ insert k v d

  pub get-insert :
      (j k : Text) (v : V) (d : Dict V)
      → get j (insert k v d) ≡ (if text_eq j k then some v else get j d)
  get-insert j k v [] = refl
  get-insert j k v ((i, w) ∷ d) = ground (
    arith,
    text_eq_iff k j,
    text_eq_iff j k,
    text_eq_iff k i,
    text_eq_iff j i,
    get-insert j k v d,
  )

  pub get-insert_self : (k : Text) (v : V) (d : Dict V) → get k (insert k v d) ≡ some v
  get-insert_self k v d = ground (arith, get-insert k k v d, text_eq_refl k)

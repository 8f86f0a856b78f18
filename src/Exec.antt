-- ===== src/Exec.antt =====
-- Python methods that change an object and may raise. What was written before a raise stays
-- written, so the state comes back beside the exception too.
pub use mail_router.Result.{
  Error, Result, ok, raise, database, type_error, index_error, attribute_error, key_error,
  value_error, connection_error, os_error, other_error,
}
use mathlib.Core.Path.{◌≡◌, refl}

abbrev pub Exec : Type 0 → Type 0 → Type 0
Exec S A = S → Result A × S

abbrev pub unless_raised : {A B : Type 0} → Result B → Result A → Result A
unless_raised (ok _) r = r
unless_raised (raise e) r = raise e

module _ {S : Type 0} where
  abbrev pub pure : {A : Type 0} → A → Exec S A
  pure a w = (ok a, w)

  abbrev pub raises : {A : Type 0} → Error → Exec S A
  raises e w = (raise e, w)

  abbrev pub lift : {A : Type 0} → Result A → Exec S A
  lift r w = (r, w)

  abbrev pub continue : {A B : Type 0} → Result A → (A → Exec S B) → Exec S B
  continue (ok a) f w = f a w
  continue (raise e) f w = (raise e, w)

  infixl 5 ◌>>=◌ ◌>>◌
  abbrev pub ◌>>=◌ : {A B : Type 0} → Exec S A → (A → Exec S B) → Exec S B
  ◌>>=◌ m f w = let (r, w') = m w in continue r f w'

  abbrev pub ◌>>◌ : {A B : Type 0} → Exec S A → Exec S B → Exec S B
  m >> k = m >>= λ _. k

  abbrev pub handle : {A : Type 0} → Result A → (Error → Exec S A) → Exec S A
  handle (ok a) handler w = (ok a, w)
  handle (raise e) handler w = handler e w

  -- `try: m except Exception: handler`
  abbrev pub catch : {A : Type 0} → Exec S A → (Error → Exec S A) → Exec S A
  catch m handler w = let (r, w') = m w in handle r handler w'

  -- `try: m finally: last`: an exception of `last` takes the place of what `m` came to.
  abbrev pub finally : {A B : Type 0} → Exec S A → Exec S B → Exec S A
  finally m last w = let (r, w') = m w in let (c, w'') = last w' in (unless_raised c r, w'')

  -- A result that is dropped has no effect.
  pub then-pure : {A B : Type 0} (r : Result A) (b : B) (w : S) → (continue r (λ _. pure b) w).1 ≡ w
  then-pure (ok a) b w = refl
  then-pure (raise e) b w = refl

-- A method called on a part of the state.
abbrev pub within : {S T A : Type 0} → (S → T) → (T → S → S) → Exec T A → Exec S A
within get put m s = let (r, t) = m (get s) in (r, put t s)

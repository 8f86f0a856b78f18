-- ===== src/Prelude/Lists.antt =====
-- Lists measured by native numbers, searched by Boolean tests, and predicates on all their items.
use Prim.Native.Nat.{ℕ, zero, suc, ◌+◌, ◌≤◌, ◌<◌}
use mathlib.Core.Path.{◌≡◌, refl, subst}
use mathlib.Core.Logic.{inl, inr}
use mathlib.Core.Bool.{Bool-set, Bool, true, false}
use mathlib.Core.HLevel.{×_prop}
use mathlib.Core.Logic.Or
use mathlib.Core.List.{
  Pairwise, Pairwise-cons, Mem, Mem-prop, not-mem-nil, mem-cons_self, mem-cons_of_mem,
  eq-or-mem_of_mem-cons, List, [], ◌∷◌, ◌++◌,
}
use mathlib.Core.Option.{Option, none, some}
use native.Mathlib.Omega.{arith}
use mail_router.Prelude.Tests.{Bool-cases, ◌==◌, if◌then◌else◌}

module _ {ℓ} {A : Type ℓ} where
  abbrev pub length : List A → ℕ
  length [] = 0
  length (x ∷ xs) = suc (length xs)

  abbrev pub take : ℕ → List A → List A
  take zero xs = []
  take (suc n) [] = []
  take (suc n) (x ∷ xs) = x ∷ take n xs

  abbrev pub drop : ℕ → List A → List A
  drop zero xs = xs
  drop (suc n) [] = []
  drop (suc n) (x ∷ xs) = drop n xs

  abbrev pub get_elem? : List A → ℕ → Option A
  get_elem? [] i = none
  get_elem? (x ∷ xs) zero = some x
  get_elem? (x ∷ xs) (suc i) = get_elem? xs i

  -- The items that pass a test.
  abbrev pub select : (A → Bool) → List A → List A
  select p [] = []
  select p (x ∷ xs) = if p x then x ∷ select p xs else select p xs

  abbrev pub count : (A → Bool) → List A → ℕ
  count p [] = 0
  count p (x ∷ xs) = (if p x then 1 else 0) + count p xs

  abbrev pub find_first : (A → Bool) → List A → Option A
  find_first p [] = none
  find_first p (x ∷ xs) = if p x then some x else find_first p xs

  abbrev pub is_empty : List A → Bool
  is_empty [] = true
  is_empty (x ∷ xs) = false

  pub length-append : (xs ys : List A) → length (xs ++ ys) ≡ length xs + length ys
  length-append [] ys = omega arith
  length-append (x ∷ xs) ys = omega (arith, length-append xs ys)

  pub length-take-le : (n : ℕ) (xs : List A) → length (take n xs) ≤ n
  length-take-le (suc n) (x ∷ xs) = omega (arith, length-take-le n xs)
  length-take-le _ _ = omega arith

abbrev pub member : ℕ → List ℕ → Bool
member a [] = false
member a (x ∷ xs) = if a == x then true else member a xs

abbrev pub All {ℓ κ} : {A : Type ℓ} → (A → Type κ) → List A → Type κ
All P [] = Unit
All P (x ∷ xs) = P x × All P xs

module _ {ℓ} {A : Type ℓ} where
  pub mem-select :
      (p : A → Bool) (xs : List A) {a : A} → Mem a (select p xs) → Mem a xs × (p a ≡ true)
  mem-select p [] m = absurd (not-mem-nil m)
  mem-select p (x ∷ xs) {a} m = elim (Bool-cases (p x)) [
    | inl e ↦
        Or.elim (×_prop Mem-prop (Bool-set _ _)) (eq-or-mem_of_mem-cons (rw e at m))
          (λ same. (rw same mem-cons_self, rw same e))
          (λ rest. let (m', e') = mem-select p xs rest in (mem-cons_of_mem x m', e'))
    | inr e ↦ let (m', e') = mem-select p xs (rw e at m) in (mem-cons_of_mem x m', e')
  ]

  pub select-mem :
      (p : A → Bool) (xs : List A) {a : A} → Mem a xs → p a ≡ true → Mem a (select p xs)
  select-mem p [] m h = absurd (not-mem-nil m)
  select-mem p (x ∷ xs) {a} m h =
      Or.elim Mem-prop (eq-or-mem_of_mem-cons m)
        (λ same. subst (λ y. Mem a (select p (y ∷ xs))) same (rw h mem-cons_self))
        (λ rest. elim (Bool-cases (p x)) [
          | inl e ↦ rw e (mem-cons_of_mem x (select-mem p xs rest h))
          | inr e ↦ rw e (select-mem p xs rest h)
        ])

  pub mem-take : (n : ℕ) (xs : List A) {a : A} → Mem a (take n xs) → Mem a xs
  mem-take zero xs m = absurd (not-mem-nil m)
  mem-take (suc n) [] m = absurd (not-mem-nil m)
  mem-take (suc n) (x ∷ xs) m =
      Or.elim Mem-prop (eq-or-mem_of_mem-cons m) (λ same. rw same mem-cons_self)
        (λ rest. mem-cons_of_mem x (mem-take n xs rest))

  pub take_of_length-lt : (n : ℕ) (xs : List A) → length (take n xs) < n → take n xs ≡ xs
  take_of_length-lt zero xs h = absurd (omega arith)
  take_of_length-lt (suc n) [] h = refl
  take_of_length-lt (suc n) (x ∷ xs) h = rw (take_of_length-lt n xs (omega arith))

pub All-map {ℓ κ μ} :
    {A : Type ℓ} {P : A → Type κ} {Q : A → Type μ} (xs : List A)
    → ((x : A) → P x → Q x)
    → All P xs
    → All Q xs
All-map [] f h = tt
All-map (x ∷ xs) f (h, hs) = (f x h, All-map xs f hs)

pub All-both {ℓ κ μ} :
    {A : Type ℓ} (P : A → Type κ) (Q : A → Type μ) (xs : List A)
    → All P xs
    → All Q xs
    → All (λ x. P x × Q x) xs
All-both P Q [] h k = tt
All-both P Q (x ∷ xs) (h, hs) (k, ks) = ((h, k), All-both P Q xs hs ks)

pub Pairwise-take {ℓ κ} :
    {A : Type ℓ} {R : A → A → Type κ} (n : ℕ) (xs : List A) → Pairwise R xs → Pairwise R (take n xs)
Pairwise-take zero xs h = Pairwise.nil
Pairwise-take (suc n) [] h = h
Pairwise-take (suc n) (x ∷ xs) h =
    let (first, rest) = Pairwise-cons.0 h in
    Pairwise-cons.1 ((λ a m. first a (mem-take n xs m)), Pairwise-take n xs rest)

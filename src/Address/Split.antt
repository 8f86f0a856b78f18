-- ===== src/Address/Split.antt =====
-- The first separator wins: the search by `find` and `min` is one scan from the left.
use mail_router.Prelude.{
  ℕ, suc, ◌+◌, ◌≡◌, refl, ap, ap₂, sym, ◌∙◌, true, false, Text, Option, none, [], ◌∷◌, ◌==◌,
  starts_with, drop, take, ltb, arith, Bool-cases, inl, inr, if◌then◌else◌,
}
use native.Mathlib.Nat.{suc-add}
use mail_router.Python.{or_none}
use mail_router.Address.{Index, at, minus_one, bump, find, cut, separate, dashes}

abbrev pub extend : ℕ → Text × Option Text → Text × Option Text
extend c (ds_id, mailbox) = (c ∷ ds_id, mailbox)

-- The id up to the first "+" or "--", and the mailbox behind it, if it is not empty.
unfoldable pub scan : Text → Text × Option Text
scan [] = ([], none)
scan (c ∷ s) =
    let rest = extend c (scan s) in
    if c == b'+'
    then ([], or_none s)
    else if starts_with dashes (c ∷ s)
    then ([], or_none (drop 1 s))
    else rest

eq_self : (a : ℕ) → (a == a) ≡ true
eq_self a = ground arith

-- Where both separators occur, the nearer one counts.
cut_both :
    (a b : ℕ) (s : Text)
    → cut (at a) (at b) s ≡ (
        if ltb b a
        then (take b s, or_none (drop (b + 2) s))
        else (take a s, or_none (drop (a + 1) s)))
cut_both a b s = elim (Bool-cases (ltb b a)) [
  | inl e ↦ rw (e, eq_self b)
  | inr e ↦ elim (Bool-cases (a == b)) [ inl f ↦ rw (e, f) | inr f ↦ rw (e, f) ]
]

cut-bump : (p q : Index) (c : ℕ) (s : Text) → cut (bump p) (bump q) (c ∷ s) ≡ extend c (cut p q s)
cut-bump (at a) (at b) c s =
    cut_both (suc a) (suc b) (c ∷ s) ∙ step ∙ sym (ap (extend c) (cut_both a b s))
  where
    step :
        (if ltb (suc b) (suc a)
          then (take (suc b) (c ∷ s), or_none (drop (suc b + 2) (c ∷ s)))
          else (take (suc a) (c ∷ s), or_none (drop (suc a + 1) (c ∷ s))))
        ≡ extend c (
            if ltb b a
            then (take b s, or_none (drop (b + 2) s))
            else (take a s, or_none (drop (a + 1) s)))
    step = elim (Bool-cases (ltb b a)) [
      | inl e ↦ let e' : ltb (suc b) (suc a) ≡ true = ground arith in rw (e, e', suc-add b 2)
      | inr e ↦ let e' : ltb (suc b) (suc a) ≡ false = ground arith in rw (e, e', suc-add a 1)
    ]
cut-bump (at a) minus_one c s = ground arith
cut-bump minus_one (at b) c s = rw (eq_self b, eq_self (suc b), suc-add b 2)
cut-bump minus_one minus_one c s = refl

cut-plus : (q : Index) (c : ℕ) (s : Text) → cut (at 0) (bump q) (c ∷ s) ≡ ([], or_none s)
cut-plus (at b) c s = ground arith
cut-plus minus_one c s = ground arith

cut-dashes : (p : Index) (c : ℕ) (s : Text) → cut (bump p) (at 0) (c ∷ s) ≡ ([], or_none (drop 1 s))
cut-dashes (at a) c s = ground arith
cut-dashes minus_one c s = ground arith

abbrev plus : Text
plus = b'+' ∷ []

find-here :
    (sub : Text) (c : ℕ) (s : Text) → starts_with sub (c ∷ s) ≡ true → find sub (c ∷ s) ≡ at 0
unfolding find
find-here sub c s h = rw h

find-later :
    (sub : Text) (c : ℕ) (s : Text)
    → starts_with sub (c ∷ s) ≡ false
    → find sub (c ∷ s) ≡ bump (find sub s)
unfolding find
find-later sub c s h = rw h

cut-find :
    (c : ℕ) (s : Text) {p q : Index}
    → find plus (c ∷ s) ≡ p
    → find dashes (c ∷ s) ≡ q
    → separate (c ∷ s) ≡ cut p q (c ∷ s)
unfolding separate
cut-find c s e f = ap₂ (λ p q. cut p q (c ∷ s)) e f

cut-separate : (s : Text) → cut (find plus s) (find dashes s) s ≡ separate s
unfolding separate
cut-separate s = refl

-- The code cuts a local part where the scan does: at the first "+" or "--", whichever is nearer.
pub separate-scan : (s : Text) → separate s ≡ scan s
unfolding scan
separate-scan [] = unfold separate in refl
separate-scan (c ∷ s) = elim (Bool-cases (c == b'+')) [
  | inl here ↦
      cut-find c s (find-here plus c s (ground arith)) (find-later dashes c s (ground arith))
      ∙ cut-plus (find dashes s) c s
      ∙ rw here
  | inr other ↦ elim (Bool-cases (starts_with dashes (c ∷ s))) [
    | inl double ↦
        cut-find c s (find-later plus c s (ground arith)) (find-here dashes c s double)
        ∙ cut-dashes (find plus s) c s
        ∙ rw (other, double)
    | inr neither ↦
        cut-find c s (find-later plus c s (ground arith)) (find-later dashes c s neither)
        ∙ cut-bump (find plus s) (find dashes s) c s
        ∙ ap (extend c) (cut-separate s ∙ separate-scan s)
        ∙ rw (other, neither)
  ]
]

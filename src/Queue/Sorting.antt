-- ===== src/Queue/Sorting.antt =====
-- Sorting by the time of reception, as one order in which SQLite may return the rows.
use mathlib.Core.List.{Perm, Pairwise, Pairwise-cons, not-mem-nil, eq-or-mem_of_mem-cons}
use mathlib.Core.List.Perm
use mathlib.Core.Bool.{Bool-set}
use mathlib.Core.Logic.Or
use mail_router.Prelude.{
  ◌≡◌, refl, Bool, true, false, Text, List, [], ◌∷◌, arith, text_le, inl, inr, Bool-cases,
}
use mail_router.Queue.Schema.{Row}
use mail_router.Queue.{insert_by, sort_by}

text_le_total : (s t : Text) → text_le s t ≡ false → text_le t s ≡ true
text_le_total [] t h = cc
text_le_total (c ∷ s) [] h = refl
text_le_total (c ∷ s) (d ∷ t) h = ground (arith, text_le_total s t)

text_le_trans : (s t u : Text) → text_le s t ≡ true → text_le t u ≡ true → text_le s u ≡ true
text_le_trans [] t u h k = refl
text_le_trans (c ∷ s) [] u h k = cc
text_le_trans (c ∷ s) (d ∷ t) [] h k = cc
text_le_trans (c ∷ s) (d ∷ t) (e ∷ u) h k = ground (arith, text_le_trans s t u)

abbrev pub received_le : Row → Row → Bool
received_le a b = text_le a.received_at b.received_at

insert_by-perm : (r : Row) (rs : List Row) → Perm (insert_by received_le r rs) (r ∷ rs)
insert_by-perm r [] = Perm.refl (r ∷ [])
insert_by-perm r (q ∷ qs) = elim (Bool-cases (received_le r q)) [
  | inl e ↦ rw e (Perm.refl (r ∷ q ∷ qs))
  | inr e ↦ rw e (Perm.trans (Perm.cons q (insert_by-perm r qs)) (Perm.swap r q qs))
]

pub sort_by-perm : (rs : List Row) → Perm (sort_by received_le rs) rs
sort_by-perm [] = Perm.refl []
sort_by-perm (r ∷ rs) =
    Perm.trans (insert_by-perm r (sort_by received_le rs)) (Perm.cons r (sort_by-perm rs))

abbrev pub IsSorted : List Row → Type 0
IsSorted = Pairwise (λ a b. text_le a.received_at b.received_at ≡ true)

insert_by-IsSorted : (r : Row) (rs : List Row) → IsSorted rs → IsSorted (insert_by received_le r rs)
insert_by-IsSorted r [] h = Pairwise-cons.1 ((λ a m. absurd (not-mem-nil m)), h)
insert_by-IsSorted r (q ∷ qs) h = elim (Bool-cases (received_le r q)) [
  | inl e ↦ rw e (
      Pairwise-cons.1 (
        λ a m.
            Or.elim (Bool-set _ _) (eq-or-mem_of_mem-cons m) (λ same. rw same e)
              (λ rest.
                text_le_trans r.received_at q.received_at a.received_at e
                  ((Pairwise-cons.0 h).0 a rest)),
        h,
      ))
  | inr e ↦ rw e (
      Pairwise-cons.1 (
        λ a m.
            Or.elim (Bool-set _ _)
              (eq-or-mem_of_mem-cons ((Perm.mem_iff (insert_by-perm r qs)).0 m))
              (λ same. rw same (text_le_total r.received_at q.received_at e))
              (λ rest. (Pairwise-cons.0 h).0 a rest),
        insert_by-IsSorted r qs (Pairwise-cons.0 h).1,
      ))
]

pub sort_by-IsSorted : (rs : List Row) → IsSorted (sort_by received_le rs)
sort_by-IsSorted [] = Pairwise.nil
sort_by-IsSorted (r ∷ rs) = insert_by-IsSorted r (sort_by received_le rs) (sort_by-IsSorted rs)

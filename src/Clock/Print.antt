-- ===== src/Clock/Print.antt =====
-- The texts of `isoformat(sep=" ")` are ordered as the points of time are: the comparisons that
-- SQLite makes on the columns of mail_router/queue.py.
use mail_router.Prelude.{
  ℕ, ◌<◌, ◌≡◌, Bool, true, false, Text, [], ◌∷◌, ◌++◌, arith, text_le, ltb, leb, ◌==◌,
  if◌then◌else◌, ap, ◌∙◌, codes,
}
use mail_router.Clock.{
  DateTime, isoformat, pad2, pad4, fraction_text, tail_text, second_text, minute_text, hour_text,
  day_text, month_text, to_naive, to_aware, whole_second,
}

-- Every field has the number of digits that `isoformat` gives it.
pub record IsPrintable (t : DateTime) : Type 0 where
  pub year : t.year < 10000
  pub month : t.month < 100
  pub day : t.day < 100
  pub hour : t.hour < 100
  pub minute : t.minute < 100
  pub second : t.second < 100
  pub microsecond : t.microsecond < 1000000

-- Lexicographic order on the pair of a number and the rest.
abbrev pub then_le : ℕ → ℕ → Bool → Bool
then_le a b rest = if ltb a b then true else if a == b then rest else false

-- Not later, by the fields; the zone is not compared.
abbrev pub datetime_le : DateTime → DateTime → Bool
datetime_le s t = then_le s.year t.year (
    then_le s.month t.month (
      then_le s.day t.day (
        then_le s.hour t.hour (
          then_le s.minute t.minute
            (then_le s.second t.second (leb s.microsecond t.microsecond))))))

text_le-pad2 :
    (a b : ℕ) (s t : Text)
    → a < 100
    → b < 100
    → text_le (pad2 a ++ s) (pad2 b ++ t) ≡ then_le a b (text_le s t)
text_le-pad2 a b s t ha hb = ground arith

text_le-pad4 :
    (a b : ℕ) (s t : Text)
    → a < 10000
    → b < 10000
    → text_le (pad4 a ++ s) (pad4 b ++ t) ≡ then_le a b (text_le s t)
text_le-pad4 a b s t ha hb = ground arith

-- The order by the fields down to the second, and then by `rest`.
abbrev pub second_le : DateTime → DateTime → Bool → Bool
second_le s t rest = then_le s.year t.year (
    then_le s.month t.month (
      then_le s.day t.day
        (then_le s.hour t.hour (then_le s.minute t.minute (then_le s.second t.second rest)))))

text_le-isoformat :
    (s t : DateTime)
    → IsPrintable s
    → IsPrintable t
    → text_le (isoformat s) (isoformat t) ≡ second_le s t (text_le (tail_text s) (tail_text t))
unfolding isoformat
text_le-isoformat s t p q =
    text_le-pad4 s.year t.year (b'-' ∷ month_text s) (b'-' ∷ month_text t) p.year q.year
    ∙ ap (then_le s.year t.year) (
        text_le-pad2 s.month t.month (b'-' ∷ day_text s) (b'-' ∷ day_text t) p.month q.month
        ∙ ap (then_le s.month t.month) (
            text_le-pad2 s.day t.day (b' ' ∷ hour_text s) (b' ' ∷ hour_text t) p.day q.day
            ∙ ap (then_le s.day t.day) (
                text_le-pad2 s.hour t.hour (b':' ∷ minute_text s) (b':' ∷ minute_text t) p.hour
                  q.hour
                ∙ ap (then_le s.hour t.hour) (
                    text_le-pad2 s.minute t.minute (b':' ∷ second_text s) (b':' ∷ second_text t)
                      p.minute q.minute
                    ∙ ap (then_le s.minute t.minute) (
                        text_le-pad2 s.second t.second (tail_text s) (tail_text t) p.second
                          q.second)))))

due_tail : (us : ℕ) → text_le (fraction_text us ++ []) (codes "+00:00") ≡ leb us 0
due_tail us = ground arith

-- A naive text, with a fraction of a second or none, is at most the text of a whole second in UTC
-- exactly when its point of time is not later.
pub text_le_due :
    (t now : DateTime)
    → IsPrintable t
    → IsPrintable now
    → text_le (isoformat (to_naive t)) (isoformat (to_aware (whole_second now)))
      ≡ datetime_le t (whole_second now)
text_le_due t now p q =
    text_le-isoformat (to_naive t) (to_aware (whole_second now)) (omega arith) (omega arith)
    ∙ ap (second_le t now) (due_tail t.microsecond)

-- The texts of two whole seconds in UTC are ordered as the points of time.
pub text_le_whole :
    (s t : DateTime)
    → IsPrintable s
    → IsPrintable t
    → text_le (isoformat (to_aware (whole_second s))) (isoformat (to_aware (whole_second t)))
      ≡ datetime_le (whole_second s) (whole_second t)
text_le_whole s t p q =
    text_le-isoformat (to_aware (whole_second s)) (to_aware (whole_second t)) (omega arith)
      (omega arith)

-- ===== src/Worker/Lifecycle.antt =====
-- The life of a mail in the queue, as the worker means it: a mail waits, is sent, and then is done,
-- dead, or waits once more with one attempt more. Rows are compared with it one by one.
use mail_router.Prelude.{ℕ, ◌+◌, ◌<◌, ◌≡◌, refl, ◌∙◌, List, [], ◌∷◌}
use mail_router.Queue.Schema.{State, pending, in_flight, delivered, dead_letter, Row}
use mail_router.Queue.Durable.{mail_of}

-- A number counts the attempts made.
pub data Stage : Type 0 where
  waiting : ℕ → Stage
  sending : ℕ → Stage
  done : Stage
  dead : Stage

abbrev stage : State → ℕ → Stage
stage pending n = waiting n
stage in_flight n = sending n
stage delivered n = done
stage dead_letter n = dead

abbrev pub stage_of : Row → Stage
stage_of r = stage r.state r.attempt_count

-- With `most` attempts allowed.
pub data Step (most : ℕ) : Stage → Stage → Type 0 where
  take : {n : ℕ} → Step most (waiting n) (sending n)
  arrive : {n : ℕ} → Step most (sending n) done
  again : {n m : ℕ} → m ≡ n + 1 → m < most → Step most (sending n) (waiting m)
  bury : {n : ℕ} → Step most (sending n) dead

pub data Steps (most : ℕ) (a : Stage) : Stage → Type 0 where
  here : Steps most a a
  next : {b c : Stage} → Steps most a b → Step most b c → Steps most a c

pub Steps-trans : {most : ℕ} {a b c : Stage} → Steps most a b → Steps most b c → Steps most a c
Steps-trans s here = s
Steps-trans s (next t step) = next (Steps-trans s t) step

-- The same row later: its id and its mail are the same, and it has taken steps.
pub record IsLater (most : ℕ) (r q : Row) : Type 0 where
  pub id : q.id ≡ r.id
  pub mail : mail_of q ≡ mail_of r
  pub steps : Steps most (stage_of r) (stage_of q)

-- Row by row; none is added or lost.
abbrev pub Lives : ℕ → List Row → List Row → Type 0
Lives most [] [] = Unit
Lives most (r ∷ rs) (q ∷ qs) = IsLater most r q × Lives most rs qs
Lives most _ _ = ⊥

pub Lives-refl : (most : ℕ) (rs : List Row) → Lives most rs rs
Lives-refl most [] = tt
Lives-refl most (r ∷ rs) = (record { id = refl; mail = refl; steps = here }, Lives-refl most rs)

pub Lives-trans :
    (most : ℕ) (rs qs ps : List Row) → Lives most rs qs → Lives most qs ps → Lives most rs ps
Lives-trans most [] [] [] a b = tt
Lives-trans most [] [] (p ∷ ps) a b = absurd b
Lives-trans most [] (q ∷ qs) ps a b = absurd a
Lives-trans most (r ∷ rs) [] ps a b = absurd a
Lives-trans most (r ∷ rs) (q ∷ qs) [] a b = absurd b
Lives-trans most (r ∷ rs) (q ∷ qs) (p ∷ ps) (a, as') (b, bs) = (
  record { id = b.id ∙ a.id; mail = b.mail ∙ a.mail; steps = Steps-trans a.steps b.steps },
  Lives-trans most rs qs ps as' bs,
)

-- ===== src/Worker/Backoff.antt =====
-- How long a mail that was refused waits for its next attempt.
use mail_router.Prelude.{
  ℕ, zero, suc, ◌≤◌, ◌≡◌, refl, some, List, [], ◌∷◌, arith, All, length, get_elem?, min,
}
use mail_router.Exec.{ok}
use mail_router.Worker.{backoff_seconds}

-- Each delay is at most those after it.
abbrev pub Ascending : List ℕ → Type 0
Ascending [] = Unit
Ascending (d ∷ ds) = All (λ e. d ≤ e) ds × Ascending ds

abbrev pub last : ℕ → List ℕ → ℕ
last b [] = b
last b (c ∷ bs) = last c bs

get_elem?-some :
    (b : ℕ) (bs : List ℕ) (i : ℕ) → i ≤ length bs → (d : ℕ) × (get_elem? (b ∷ bs) i ≡ some d)
get_elem?-some b bs zero h = (b, refl)
get_elem?-some b [] (suc i) h = absurd (omega arith)
get_elem?-some b (c ∷ bs) (suc i) h = get_elem?-some c bs i (omega arith)

-- The delay is the entry at the attempt, or the last.
pub delay-at :
    (b : ℕ) (bs : List ℕ) (n : ℕ)
    → (d : ℕ) × (backoff_seconds (b ∷ bs) n ≡ ok d)
      × (get_elem? (b ∷ bs) (min n (length bs)) ≡ some d)
unfolding backoff_seconds
delay-at b bs n =
    let (d, e) = get_elem?-some b bs (min n (length bs)) (omega arith) in
    (d, rw (backoff_seconds, e) refl, e)

-- The attempt has this delay: the entry with its index, or the last entry.
pub record IsDelay (b : ℕ) (bs : List ℕ) (n d : ℕ) : Type 0 where
  pub returned : backoff_seconds (b ∷ bs) n ≡ ok d
  pub entry : n ≤ length bs → get_elem? (b ∷ bs) n ≡ some d
  pub later : length bs ≤ n → d ≡ last b bs

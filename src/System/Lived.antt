-- ===== src/System/Lived.antt =====
-- A table that the worker has gone over is a table still.
use mail_router.Prelude.{
  ℕ, ◌≡◌, refl, ap, none, List, [], ◌∷◌, find_first, Bool, Bool-cases, inl, inr, arith, text_eq,
  ◌==◌,
}
use mail_router.Queue.{requeue_in_flight}
use mail_router.Queue.Schema.{Row, has_id, has_key}
use mail_router.Queue.Sqlite.{World, is_down}
use mail_router.Queue.Table.{IsTable, map-IsTable}
use mail_router.Queue.{Mail}
use mail_router.Worker.Lifecycle.{IsLater, Lives}

Lives-find :
    (most : ℕ) (p : Row → Bool)
    → ((r q : Row) → IsLater most r q → p q ≡ p r)
    → (rs qs : List Row) → Lives most rs qs
    → find_first p rs ≡ none
    → find_first p qs ≡ none
Lives-find most p same [] [] lives h = refl
Lives-find most p same [] (q ∷ qs) lives h = absurd lives
Lives-find most p same (r ∷ rs) [] lives h = absurd lives
Lives-find most p same (r ∷ rs) (q ∷ qs) (later, lives) h =
    ground (arith, same r q later, Lives-find most p same rs qs lives)

pub Lives-IsTable :
    (most top : ℕ) (rs qs : List Row) → Lives most rs qs → IsTable top rs → IsTable top qs
Lives-IsTable most top [] [] lives h = tt
Lives-IsTable most top [] (q ∷ qs) lives h = absurd lives
Lives-IsTable most top (r ∷ rs) [] lives h = absurd lives
Lives-IsTable most top (r ∷ rs) (q ∷ qs) (later, lives) (low, high, no_id, no_key, rest) =
    let key : q.idempotency_key ≡ r.idempotency_key =
      ap (λ (m : Mail). m.idempotency_key) later.mail in
    (
      rw (later.id) low,
      rw (later.id) high,
      Lives-find most (has_id q.id) (λ a b l. ap (λ n. n == q.id) l.id) rs qs lives
          (rw (later.id) no_id),
      Lives-find most (has_key q.idempotency_key)
          (λ a b l. ap (λ (m : Mail). text_eq m.idempotency_key q.idempotency_key) l.mail) rs qs
          lives (rw key no_key),
      Lives-IsTable most top rs qs lives rest,
    )

pub requeued-IsTable :
    (top : ℕ) (w : World) → IsTable top w.rows → IsTable top (requeue_in_flight w).1.rows
unfolding requeue_in_flight
requeued-IsTable top w h = elim (Bool-cases (is_down w)) [
  | inl f ↦ rw f h
  | inr f ↦ rw f (map-IsTable _ (λ r. ground arith) (λ r. ground arith) top w.rows h)
]

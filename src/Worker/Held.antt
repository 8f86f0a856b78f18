-- ===== src/Worker/Held.antt =====
-- A mail in the queue stays there while the worker runs.
use mail_router.Prelude.{
  ℕ, ◌≡◌, refl, ◌∙◌, ap, ap₂, sym, subst, none, some, List, [], ◌∷◌, Bool-cases, inl, inr,
  find_first, text_eq,
}
use mail_router.Queue.{Mail, requeue_in_flight}
use mail_router.Queue.Schema.{Row, has_key}
use mail_router.Queue.Sqlite.{World}
use mail_router.Queue.Invariant.{IsValid, requeues, after}
use mail_router.Queue.Delivery.{IsOrderBy}
use mail_router.Queue.Durable.{Entry, entry_of, IsHeld, IsHeldSaved, after-IsDurable}
use mail_router.Worker.{Worker, run_forever}
use mail_router.Worker.Lifecycle.{Lives, IsLater}
use mail_router.Worker.Tick.{committed}
use mail_router.Worker.Run.{run_forever-Lives}

IsLater-entry : (most : ℕ) (r q : Row) → IsLater most r q → entry_of q ≡ entry_of r
IsLater-entry most r q later = ap₂ (λ (i : ℕ) (m : Mail). (i, m)) later.id later.mail

pub Lives-IsHeld :
    (most : ℕ) (e : Entry) (rs qs : List Row) → Lives most rs qs → IsHeld e rs → IsHeld e qs
Lives-IsHeld most e [] [] lives h = h
Lives-IsHeld most e [] (q ∷ qs) lives h = absurd lives
Lives-IsHeld most e (r ∷ rs) [] lives h = absurd lives
Lives-IsHeld most e (r ∷ rs) (q ∷ qs) (later, lives) (x, found, same) =
    let key : has_key e.1.idempotency_key q ≡ has_key e.1.idempotency_key r =
      ap (λ (m : Mail). text_eq m.idempotency_key e.1.idempotency_key) later.mail in
    elim (Bool-cases (has_key e.1.idempotency_key r)) [
      | inl here ↦
          let first : some r ≡ some x = rw here at found in
          let r_is : r ≡ x = cc in
          rw (key, here) (q, refl, IsLater-entry most r q later ∙ ap entry_of r_is ∙ same)
      | inr there ↦
          let rest : find_first (has_key e.1.idempotency_key) rs ≡ some x = rw there at found in
          rw (key, there) (Lives-IsHeld most e rs qs lives (x, rest, same))
    ]

pub requeued-IsHeld :
    (e : Entry) (w : World)
    → w.saved ≡ none
    → IsHeld e w.rows
    → IsHeld e (requeue_in_flight w).1.rows
unfolding after
requeued-IsHeld e w closed h =
    (after-IsDurable requeues e w refl
      (record { now = h; snapshot = subst (IsHeldSaved e) (sym closed) tt })).now

-- However many rounds the worker makes, a mail stays in the committed table under its key and its id,
-- with all that came in with it.
pub run_forever-IsHeld :
    (n : ℕ) (s : Worker) (e : Entry)
    → IsOrderBy s.queue.env
    → IsValid s.queue
    → s.queue.saved ≡ none
    → IsHeld e s.queue.rows
    → IsHeld e (committed (run_forever n s).1.queue)
run_forever-IsHeld n s e o valid closed h =
    Lives-IsHeld s.config.max_attempts e (requeue_in_flight s.queue).1.rows
      (committed (run_forever n s).1.queue) (run_forever-Lives n s o valid closed)
      (requeued-IsHeld e s.queue closed h)

-- ===== src/Worker/Attempts.antt =====
-- The bound on the attempts, over the processing of a whole batch.
use mail_router.Prelude.{ℕ, ◌<◌, ◌≡◌, sym, subst, ap, List, [], ◌∷◌, All, arith}
use mail_router.Exec.{Result, ok, raise, continue}
use mail_router.Queue.Schema.{Row, QueueItem}
use mail_router.Queue.Updates.{at_id}
use mail_router.Worker.{Worker, WorkerConfig, process, process_all}
use mail_router.Worker.Keeps.{process-Keeps}
use mail_router.Worker.Process.{
  Change, delivers, retries, refused, exhausted, unknown, unparsed, IsProcessed,
  process-IsProcessed,
}

-- Every row was attempted fewer than `n` times.
abbrev pub HasAttempts : ℕ → List Row → Type 0
HasAttempts n rows = All (λ r. r.attempt_count < n) rows

at_id-HasAttempts :
    (n id : ℕ) (c : Row → Row)
    → ((r : Row) → r.attempt_count < n → (c r).attempt_count < n)
    → (rows : List Row) → HasAttempts n rows
    → HasAttempts n (at_id id c rows)
at_id-HasAttempts n id c h [] p = tt
at_id-HasAttempts n id c h (r ∷ rows) (p, ps) =
    (ground (arith, h r p), at_id-HasAttempts n id c h rows ps)

Change-lt :
    (s : Worker) (item : QueueItem) (c : Row → Row)
    → Change s item c
    → (r : Row) → r.attempt_count < s.config.max_attempts
    → (c r).attempt_count < s.config.max_attempts
Change-lt s item c (delivers _ _ _ at mid _ e) r p = rw e p
Change-lt s item c (retries d _ _ _ left delay _ e) r p = rw e left
Change-lt s item c (refused _ _ _ _ e) r p = rw e p
Change-lt s item c (exhausted _ _ _ _ _ e) r p = rw e p
Change-lt s item c (unknown _ e) r p = rw e p
Change-lt s item c (unparsed _ _ _ _ e) r p = rw e p

process-HasAttempts :
    (item : QueueItem) (s : Worker) (a : Result Unit × Worker)
    → IsProcessed s item a
    → HasAttempts s.config.max_attempts s.queue.rows
    → HasAttempts s.config.max_attempts a.1.queue.rows
process-HasAttempts item s (ok u, s') (c, change, rows) h =
    subst (HasAttempts s.config.max_attempts) (sym rows)
      (at_id-HasAttempts s.config.max_attempts item.id c (Change-lt s item c change) s.queue.rows h)
process-HasAttempts item s (raise e, s') rows h =
    subst (HasAttempts s.config.max_attempts) (sym rows) h

-- While a batch is processed, whatever the server answers and wherever an exception ends it, no row
-- comes to `max_attempts` attempts, if none has so many before.
pub process_all-HasAttempts :
    (items : List QueueItem) (s : Worker)
    → HasAttempts s.config.max_attempts s.queue.rows
    → HasAttempts s.config.max_attempts (process_all items s).1.queue.rows
unfolding process_all
process_all-HasAttempts [] s h = h
process_all-HasAttempts (item ∷ items) s h =
    rest (process_all-HasAttempts items) (process item s) (process-Keeps item s).0
      (process-HasAttempts item s (process item s) (process-IsProcessed item s) h)
  where
    rest :
        ((v : Worker)
          → HasAttempts v.config.max_attempts v.queue.rows
          → HasAttempts v.config.max_attempts (process_all items v).1.queue.rows)
        → (a : Result Unit × Worker) → a.1.config ≡ s.config
        → HasAttempts s.config.max_attempts a.1.queue.rows
        → HasAttempts s.config.max_attempts (continue a.0 (λ _. process_all items) a.1).1.queue.rows
    rest ih (raise e, v) same k = k
    rest ih (ok u, v) same k =
        let bound : v.config.max_attempts ≡ s.config.max_attempts =
          ap (λ (c : WorkerConfig). c.max_attempts) same in
        subst (λ n. HasAttempts n (process_all items v).1.queue.rows) bound
          (ih v (subst (λ n. HasAttempts n v.queue.rows) (sym bound) k))

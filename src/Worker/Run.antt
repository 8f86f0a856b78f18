-- ===== src/Worker/Run.antt =====
-- `Worker.run_forever` against the life of a mail.
use mathlib.Core.List.{
  Mem, Pairwise-cons, mem-cons_self, mem-cons_of_mem, not-mem-nil, eq-or-mem_of_mem-cons,
}
use mathlib.Core.Logic.Or
use mathlib.Core.HLevel.{¬_prop}
use mail_router.Prelude.{
  ℕ, zero, suc, ◌≡◌, ◌≢◌, refl, ◌∙◌, ap, sym, subst, ltb, Option, none, some, List, [], ◌∷◌,
  Bool-cases, inl, inr,
}
use mail_router.Exec.{Exec, Result, ok, raise, continue}
use mail_router.Queue
use mail_router.Queue.{requeue_in_flight, dequeue_batch}
use mail_router.Queue.Schema.{Row, QueueItem}
use mail_router.Queue.Sqlite.{World}
use mail_router.Queue.Invariant.{IsValid, IsSaved, requeues, after, after-IsValid}
use mail_router.Queue.Delivery.{IsOrderBy}
use mail_router.Queue.Updates.{requeue_in_flight-saved}
use mail_router.Queue.Steady.{
  IsSteady-env, dequeue_batch-IsSteady, requeue_in_flight-IsSteady, stats-IsSteady,
}
use mail_router.Alerts
use mail_router.Worker.{
  Worker, process_all, maybe_alert_queue_size, tick, ticks, run_forever, rest_of_tick, pending_of,
  backlog_alert,
}
use mail_router.Worker.Keeps.{process_all-Keeps}
use mail_router.Worker.Lifecycle.{Lives, Lives-refl, Lives-trans}
use mail_router.Queue.Counts.{DifferentIds}
use mail_router.Worker.Ready.{IsTable-DifferentIds}
use mail_router.Worker.Advance.{bound_same}
use mail_router.Worker.Tick.{committed, on_batch, Ticks, tick-Ticks}

committed-DifferentIds : (w : World) → IsValid w → DifferentIds (committed w)
committed-DifferentIds w valid = go w.saved valid.snapshot
  where
    go :
        (saved : Option (List Row))
        → IsSaved w.sequence saved
        → DifferentIds (Queue.restored saved w.rows)
    go none h = IsTable-DifferentIds w.sequence w.rows valid.table
    go (some rows) h = IsTable-DifferentIds w.sequence rows h

-- Rows that have moved on have their ids still.
Lives-apart :
    (most i : ℕ) (rs qs : List Row)
    → Lives most rs qs
    → ((a : Row) → Mem a rs → i ≢ a.id)
    → (b : Row) → Mem b qs
    → i ≢ b.id
Lives-apart most i [] [] lives h b m = absurd (not-mem-nil m)
Lives-apart most i [] (q ∷ qs) lives h b m = absurd lives
Lives-apart most i (r ∷ rs) [] lives h b m = absurd lives
Lives-apart most i (r ∷ rs) (q ∷ qs) (later, lives) h b m =
    Or.elim ¬_prop (eq-or-mem_of_mem-cons m)
      (λ same e. h r mem-cons_self (e ∙ ap (λ (x : Row). x.id) same ∙ later.id))
      (λ rest. Lives-apart most i rs qs lives (λ a k. h a (mem-cons_of_mem r k)) b rest)

pub Lives-DifferentIds :
    (most : ℕ) (rs qs : List Row) → Lives most rs qs → DifferentIds rs → DifferentIds qs
Lives-DifferentIds most [] [] lives h = h
Lives-DifferentIds most [] (q ∷ qs) lives h = absurd lives
Lives-DifferentIds most (r ∷ rs) [] lives h = absurd lives
Lives-DifferentIds most (r ∷ rs) (q ∷ qs) (later, lives) h =
    let (first, rest) = Pairwise-cons.0 h in
    Pairwise-cons.1 (
      Lives-apart most q.id rs qs lives (λ a m e. first a m (sym later.id ∙ e)),
      Lives-DifferentIds most rs qs lives rest,
    )

abbrev pub Fixed : {A : Type 0} → Worker → Result A × Worker → Type 0
Fixed s a = (a.1.config ≡ s.config) × (a.1.queue.env ≡ s.queue.env)

continue-Fixed :
    {A B : Type 0} (c : Worker) (r : Result A) (f : A → Exec Worker B) (s : Worker)
    → (s.config ≡ c.config) × (s.queue.env ≡ c.queue.env)
    → ((a : A) → Fixed c (f a s))
    → Fixed c (continue r f s)
continue-Fixed c (ok a) f s same h = h a
continue-Fixed c (raise e) f s same h = same

maybe_alert_queue_size-Fixed : (s : Worker) → Fixed s (maybe_alert_queue_size s)
unfolding maybe_alert_queue_size
maybe_alert_queue_size-Fixed s =
    let same = IsSteady-env Queue.stats stats-IsSteady s.queue in
    continue-Fixed s (Queue.stats s.queue).0 _ (record s { queue = (Queue.stats s.queue).1 })
      (refl, same)
      (λ found. elim (Bool-cases (ltb s.config.queue_size_threshold (pending_of found))) [
        | inr quiet ↦ rw quiet (refl, same)
        | inl loud ↦ rw loud (
            continue-Fixed s
              (Alerts.notify
                (backlog_alert (s.show_stats found) (pending_of found)
                  s.config.queue_size_threshold)
                s.alerter).0
              _ _ (refl, same) (λ _. (refl, same)))
      ])

rest_of_tick-Fixed :
    (c : Worker) (batch : Option (List QueueItem)) (s : Worker)
    → (s.config ≡ c.config) × (s.queue.env ≡ c.queue.env)
    → Fixed c (rest_of_tick batch s)
rest_of_tick-Fixed c none s same = same
rest_of_tick-Fixed c (some items) s (config, env) =
    let (config', _, env') = process_all-Keeps items s in
    let u = (process_all items s).1 in
    continue-Fixed c (process_all items s).0 (λ _. maybe_alert_queue_size) u
      (config' ∙ config, env' ∙ env)
      (λ _.
        let (config'', env'') = maybe_alert_queue_size-Fixed u in
        (config'' ∙ config' ∙ config, env'' ∙ env' ∙ env))

pub tick-Fixed : (s : Worker) → Fixed s (tick s)
unfolding tick
tick-Fixed s = go (dequeue_batch s.config.batch_size s.queue) (
    IsSteady-env (dequeue_batch s.config.batch_size) (dequeue_batch-IsSteady s.config.batch_size)
      s.queue)
  where
    go : (a : Result (List QueueItem) × World) → a.1.env ≡ s.queue.env → Fixed s (on_batch a s)
    go (ok items, w) e = rest_of_tick-Fixed s (some items) (record s { queue = w }) (refl, e)
    go (raise x, w) e = rest_of_tick-Fixed s none (record s { queue = w }) (refl, e)

ticks-Ticks :
    (n : ℕ) (s : Worker)
    → IsOrderBy s.queue.env
    → DifferentIds (committed s.queue)
    → Ticks s (ticks n s).1
unfolding ticks
ticks-Ticks zero s o different = Lives-refl s.config.max_attempts (committed s.queue)
ticks-Ticks (suc n) s o different =
    rest (ticks-Ticks n) (tick s) (tick-Fixed s) (tick-Ticks s o different)
  where
    rest :
        ((v : Worker)
          → IsOrderBy v.queue.env
          → DifferentIds (committed v.queue)
          → Ticks v (ticks n v).1)
        → (a : Result Unit × Worker) → Fixed s a
        → Ticks s a.1
        → Ticks s (continue a.0 (λ _. ticks n) a.1).1
    rest ih (raise e, v) same lives = lives
    rest ih (ok u, v) (config, env) lives =
        let most = s.config.max_attempts in
        Lives-trans most (committed s.queue) (committed v.queue) (committed (ticks n v).1.queue)
          lives
          (subst (λ m. Lives m (committed v.queue) (committed (ticks n v).1.queue))
            (bound_same s v config)
            (ih v (subst IsOrderBy (sym env) o)
              (Lives-DifferentIds most (committed s.queue) (committed v.queue) lives different)))

pub requeued-IsValid : (w : World) → IsValid w → IsValid (requeue_in_flight w).1
unfolding after
requeued-IsValid w valid = after-IsValid requeues w valid

-- However many rounds `run_forever` makes, whatever the server answers and whatever raises, every row
-- that is there once the mails in flight are queued again moves along the life of its mail: waiting,
-- sending, and then done, dead, or waiting with one attempt more below `max_attempts`. What is done or
-- dead stays so. No row is added or lost, and what came in with the mail stays. The table is the
-- committed one, ids in it are unique, no transaction is open at first, and SQLite's order is one by
-- reception.
pub run_forever-Lives :
    (n : ℕ) (s : Worker)
    → IsOrderBy s.queue.env
    → IsValid s.queue
    → s.queue.saved ≡ none
    → Lives s.config.max_attempts
        (requeue_in_flight s.queue).1.rows
        (committed (run_forever n s).1.queue)
unfolding run_forever
run_forever-Lives n s o valid closed =
    go (requeue_in_flight s.queue) (requeue_in_flight-saved s.queue ∙ closed)
      (IsSteady-env requeue_in_flight requeue_in_flight-IsSteady s.queue)
      (requeued-IsValid s.queue valid)
  where
    go :
        (a : Result ℕ × World)
        → a.1.saved ≡ none
        → a.1.env ≡ s.queue.env
        → IsValid a.1
        → Lives s.config.max_attempts a.1.rows
            (committed (continue a.0 (λ _. ticks n) (record s { queue = a.1 })).1.queue)
    go (raise e, w) none_open env valid' = rw none_open (Lives-refl s.config.max_attempts w.rows)
    go (ok count, w) none_open env valid' =
        let t : Worker = record s { queue = w } in
        subst (λ rows. Lives s.config.max_attempts rows (committed (ticks n t).1.queue))
          (ap (λ p. Queue.restored p w.rows) none_open)
          (ticks-Ticks n t (subst IsOrderBy (sym env) o) (committed-DifferentIds w valid'))

-- ===== src/Worker/Tick.antt =====
-- A whole `Worker.tick` against the life of a mail.
use mail_router.Prelude.{
  ◌≡◌, refl, ◌∙◌, ap, ap₂, sym, ltb, subst, Option, none, some, List, All, Bool-cases, inl, inr,
}
use mail_router.Exec.{Exec, Result, ok, raise, continue, handle, pure}
use mail_router.Queue
use mail_router.Queue.{mark_in_flight, ids, dequeue_batch, restored}
use mail_router.Queue.Schema.{Row, QueueItem}
use mail_router.Queue.Sqlite.{World}
use mail_router.Queue.Updates.{stats-same}
use mail_router.Queue.Dequeue.{IsUndone}
use mail_router.Queue.Batch.{IsBatch, dequeue_batch-IsBatch}
use mail_router.Queue.Delivery.{IsOrderBy}
use mail_router.Alerts
use mail_router.Worker.{
  Worker, process_all, maybe_alert_queue_size, tick, rest_of_tick, pending_of, backlog_alert,
}
use mail_router.Worker.Keeps.{Keeps, process_all-Keeps}
use mail_router.Worker.Lifecycle.{Lives, Lives-refl, Lives-trans}
use mail_router.Queue.Counts.{DifferentIds}
use mail_router.Worker.Ready.{Distinct, IsReady, batch-IsReady, batch-Lives}
use mail_router.Worker.Advance.{bound_same, process_all-Lives}

-- The table as others see it: without what an open transaction has written.
abbrev pub committed : World → List Row
committed w = restored w.saved w.rows

abbrev SameQueue : {A : Type 0} → Worker → Result A × Worker → Type 0
SameQueue s a = (a.1.queue.rows ≡ s.queue.rows) × (a.1.queue.saved ≡ s.queue.saved)

continue-SameQueue :
    {A B : Type 0} (s : Worker) (r : Result A) (f : A → Exec Worker B) (t : Worker)
    → (t.queue.rows ≡ s.queue.rows) × (t.queue.saved ≡ s.queue.saved)
    → ((a : A) → SameQueue s (f a t))
    → SameQueue s (continue r f t)
continue-SameQueue s (ok a) f t same h = h a
continue-SameQueue s (raise e) f t same h = same

-- The alert about the size reads the queue and writes nothing to it.
pub maybe_alert_queue_size-SameQueue : (s : Worker) → SameQueue s (maybe_alert_queue_size s)
unfolding maybe_alert_queue_size
maybe_alert_queue_size-SameQueue s =
    let same = stats-same s.queue in
    continue-SameQueue s (Queue.stats s.queue).0 _ (record s { queue = (Queue.stats s.queue).1 })
      same
      (λ found. elim (Bool-cases (ltb s.config.queue_size_threshold (pending_of found))) [
        | inr quiet ↦ rw quiet same
        | inl loud ↦ rw loud (
            continue-SameQueue s
              (Alerts.notify
                (backlog_alert (s.show_stats found) (pending_of found)
                  s.config.queue_size_threshold)
                s.alerter).0
              _ _ same (λ _. same))
      ])

abbrev pub Ticks : Worker → Worker → Type 0
Ticks s t = Lives s.config.max_attempts (committed s.queue) (committed t.queue)

pub committed-same : (v w : World) → w.rows ≡ v.rows → w.saved ≡ v.saved → committed w ≡ committed v
committed-same v w rows saved = ap₂ restored saved rows

raised : (s : Worker) (w : World) → IsUndone s.queue w → Ticks s (record s { queue = w })
raised s w (_, inl (rows, saved)) =
    subst (Lives s.config.max_attempts (committed s.queue))
      (sym (committed-same s.queue w rows saved))
      (Lives-refl s.config.max_attempts (committed s.queue))
raised s w (_, inr (closed, opened, _)) =
    rw (closed, opened) (Lives-refl s.config.max_attempts s.queue.rows)

-- `tick` after `dequeue_batch`
abbrev pub on_batch : Result (List QueueItem) × World → Exec Worker Unit
on_batch a s =
    let t = record s { queue = a.1 } in
    let b : Result (Option (List QueueItem)) × Worker =
      continue a.0 (λ items v. (ok (some items), v)) t in
    let (r, u) = handle b.0 (λ _. pure none) b.1 in continue r rest_of_tick u

-- The rest of a tick, once the batch is in flight.
worked :
    (s t : Worker) (items : List QueueItem)
    → t.config ≡ s.config
    → t.queue.saved ≡ none
    → Distinct items
    → All (IsReady t.queue.rows) items
    → Lives s.config.max_attempts s.queue.rows t.queue.rows
    → s.queue.saved ≡ none
    → Ticks s (rest_of_tick (some items) t).1
worked s t items config closed different ready taken closed' = rw closed' (
    last (process_all items t) (process_all-Lives items t different ready)
      (process_all-Keeps items t))
  where
    last :
        (a : Result Unit × Worker)
        → Lives t.config.max_attempts t.queue.rows a.1.queue.rows
        → Keeps t a
        → Lives s.config.max_attempts s.queue.rows
            (committed (continue a.0 (λ _. maybe_alert_queue_size) a.1).1.queue)
    last a lives (_, saved, _) =
        let same =
          continue-SameQueue a.1 a.0 (λ _. maybe_alert_queue_size) a.1 (refl, refl)
            (λ _. maybe_alert_queue_size-SameQueue a.1) in
        subst (Lives s.config.max_attempts s.queue.rows)
          (sym (
            committed-same a.1.queue (continue a.0 (λ _. maybe_alert_queue_size) a.1).1.queue same.0
              same.1
            ∙ ap (λ o. restored o a.1.queue.rows) (saved ∙ closed)))
          (Lives-trans s.config.max_attempts s.queue.rows t.queue.rows a.1.queue.rows taken
            (subst (λ n. Lives n t.queue.rows a.1.queue.rows) (bound_same s t config) lives))

after_batch :
    (s : Worker)
    → IsOrderBy s.queue.env
    → DifferentIds (committed s.queue)
    → (a : Result (List QueueItem) × World) → IsBatch s.config.batch_size s.queue a
    → Ticks s (on_batch a s).1
after_batch s o different' (raise e, w) (_, undone) = raised s w undone
after_batch s o different' (ok items, w) (copies, rows, _, closed, closed') =
    let open_rows = subst DifferentIds (ap (λ p. restored p s.queue.rows) closed) different' in
    let (different, ready) = batch-IsReady s.config.batch_size s.queue items o open_rows copies in
    worked s (record s { queue = w }) items refl closed' different
      (subst (λ l. All (IsReady l) items) (sym rows) ready)
      (subst (Lives s.config.max_attempts s.queue.rows) (sym rows)
        (batch-Lives s.config.max_attempts s.config.batch_size s.queue o open_rows))
      closed

-- A tick, whatever the server answers and whatever raises, moves every row of the committed table
-- along the life of its mail or leaves it. Ids in the table are unique, and SQLite's order is one by
-- reception.
pub tick-Ticks :
    (s : Worker) → IsOrderBy s.queue.env → DifferentIds (committed s.queue) → Ticks s (tick s).1
unfolding tick
tick-Ticks s o different =
    after_batch s o different (dequeue_batch s.config.batch_size s.queue)
      (dequeue_batch-IsBatch s.config.batch_size s.queue)

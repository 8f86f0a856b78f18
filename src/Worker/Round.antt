-- ===== src/Worker/Round.antt =====
-- A round of the worker's loop in which nothing fails: all that is due is delivered.
use mathlib.Core.List.{Mem, mem-map_of_mem}
use mail_router.Prelude.{
  ℕ, ◌+◌, ◌≡◌, refl, ◌∙◌, ap, sym, subst, ltb, Bool, Text, none, some, List, [], ◌∷◌, map, arith,
  All, find_first, length, inl, inr, Bool-cases, Option-cases, true,
}
use mail_router.Exec.{Result, ok, raise, continue, pure}
use mail_router.Queue
use mail_router.Queue.{dequeue_batch, mark_in_flight, ids, restored}
use mail_router.Queue.Schema.{Row, QueueItem, has_id}
use mail_router.Queue.Sqlite.{Action, Environment, World}
use mail_router.Queue.Enqueue.{stamp}
use mail_router.Queue.Items.{IsCopy, AreCopies}
use mail_router.Queue.Dequeue.{due_rows}
use mail_router.Queue.Batch.{IsBatch, dequeue_batch-IsBatch}
use mail_router.Queue.Delivery.{IsOrderBy, length-AreCopies, All-AreCopies, mem-due}
use mail_router.Queue.Steady.{
  IsSteady, stats-IsSteady, IsSteady-env, IsSteady-closed, dequeue_batch-IsSteady,
}
use mail_router.Queue.Up.{IsUp, stats-returns, dequeue_batch-returns}
use mail_router.Alerts
use mail_router.Python.{Python}
use mail_router.Client.{Request, Outcome}
use mail_router.Lookup.{Lookup}
use mail_router.Parser.{EmailPackage}
use mail_router.Alerts.{Alerter, returns, notify-returns}
use mail_router.Worker.{
  Worker, WorkerConfig, process_all, maybe_alert_queue_size, tick, rest_of_tick, pending_of,
  backlog_alert,
}
use mail_router.Worker.Ready.{find-none}
use mail_router.Worker.Tick.{committed, committed-same, maybe_alert_queue_size-SameQueue}
use mail_router.Worker.Keeps.{process_all-Keeps}
use mail_router.Worker.Deliver.{
  AreKnown, AcceptsAll, IsDelivered, IsThere, mails_of, process_all-Delivers,
}

-- The rows that the next batch is made of.
abbrev pub due : Worker → List Row
due s = due_rows (stamp s.queue) s.config.batch_size s.queue

abbrev pub mails_in : List Row → List (Text × Text)
mails_in rows = map (λ (r : Row). (r.ds_id, r.raw_eml)) rows

pub mails_in-AreCopies :
    (items : List QueueItem) (rows : List Row)
    → AreCopies items rows
    → mails_of items ≡ mails_in rows
mails_in-AreCopies [] [] h = refl
mails_in-AreCopies [] (r ∷ rs) h = absurd h
mails_in-AreCopies (i ∷ is) [] h = absurd h
mails_in-AreCopies (i ∷ is) (r ∷ rs) ((_, _, _, _, ds_id, _, _, raw, _), cs) =
    cc (ds_id, raw, mails_in-AreCopies is rs cs)

All-ids :
    (P : ℕ → Type 0) (items : List QueueItem) (rows : List Row)
    → AreCopies items rows
    → All (λ (item : QueueItem). P item.id) items
    → All P (ids rows)
All-ids P [] [] copies h = tt
All-ids P [] (r ∷ rs) copies h = absurd copies
All-ids P (i ∷ is) [] copies h = absurd copies
All-ids P (i ∷ is) (r ∷ rs) (c, cs) (h, hs) = (subst P c.0 h, All-ids P is rs cs hs)

-- What a run leaves as it is.
abbrev pub Setting : Type 0
Setting = WorkerConfig × Lookup × Python × EmailPackage × (ℕ → Request → Outcome)

abbrev pub setting_of : Worker → Setting
setting_of s = (s.config, s.lookup, s.python, s.email, s.post)

-- The alert about the size returns, and sends no mail of the queue.
pub record IsQuiet (s : Worker) (a : Result Unit × Worker) : Type 0 where
  pub returns : a.0 ≡ ok tt
  pub posts : a.1.posts ≡ s.posts
  pub up : IsUp a.1.queue
  pub site : setting_of a.1 ≡ setting_of s

notified :
    (s : Worker) (w : World) (a : Result Bool × Alerter)
    → IsUp w
    → returns a.0 ≡ true
    → IsQuiet s (continue a.0 (λ _. pure tt) (record s { queue = w; alerter = a.1 }))
notified s w (ok b, v) up h = record { returns = refl; posts = refl; up = up; site = refl }
notified s w (raise e, v) up h = cc

pub steady-IsUp : {A : Type 0} (f : Action A) → IsSteady f → (w : World) → IsUp w → IsUp (f w).1
steady-IsUp f steady w up = record {
  is_open = IsSteady-closed f steady w ∙ up.is_open;
  answers = λ n. ap (λ (e : Environment). e.fails n) (IsSteady-env f steady w) ∙ up.answers n;
}

pub maybe_alert_queue_size-IsQuiet :
    (s : Worker) → IsUp s.queue → IsQuiet s (maybe_alert_queue_size s)
unfolding maybe_alert_queue_size
maybe_alert_queue_size-IsQuiet s up =
    let (counts, counted) = stats-returns s.queue up in
    let up' = steady-IsUp Queue.stats stats-IsSteady s.queue up in
    let most = s.config.queue_size_threshold in
    let m = backlog_alert (s.show_stats counts) (pending_of counts) most in
    rw counted (elim (Bool-cases (ltb most (pending_of counts))) [
      | inr quiet ↦ rw quiet (record { returns = refl; posts = refl; up = up'; site = refl })
      | inl loud ↦ rw loud (
          notified s (Queue.stats s.queue).1 (Alerts.notify m s.alerter) up'
            (notify-returns m s.alerter))
    ])

-- The items of a batch have their rows in the table.
pub batch-IsThere :
    (limit : ℕ) (w : World) (items : List QueueItem)
    → IsOrderBy w.env
    → AreCopies items (due_rows (stamp w) limit w)
    → All
        (λ item. IsThere (map (mark_in_flight (ids (due_rows (stamp w) limit w))) w.rows) item.id)
        items
batch-IsThere limit w items o copies =
    All-AreCopies _ items (due_rows (stamp w) limit w) copies (λ item r m c. there item r m c)
  where
    taken : List ℕ
    taken = ids (due_rows (stamp w) limit w)

    rows : List Row
    rows = map (mark_in_flight taken) w.rows

    marked_id : (r : Row) → (mark_in_flight taken r).id ≡ r.id
    marked_id r = ground arith

    there :
        (item : QueueItem) (r : Row)
        → Mem r (due_rows (stamp w) limit w)
        → IsCopy item r
        → IsThere rows item.id
    there item r m c = elim (Option-cases (find_first (has_id item.id) rows)) [
      | inr found ↦ found
      | inl missing ↦ absurd (
          find-none item.id rows {a = mark_in_flight taken r} missing
            (mem-map_of_mem (mark_in_flight taken) (mem-due (stamp w) limit w o m).0)
            (c.0 ∙ sym (marked_id r)))
    ]

-- What a round leaves when every due mail can be sent.
pub record DeliversDue (s : Worker) (a : Result Unit × Worker) : Type 0 where
  pub returns : a.0 ≡ ok tt
  pub delivered : All (IsDelivered (committed a.1.queue)) (ids (due s))
  pub sent : a.1.posts ≡ s.posts + length (due s)

-- The batch is taken, and none of its mails is sent yet.
after_batch :
    (s : Worker)
    → IsOrderBy s.queue.env
    → AreKnown s.email (mails_in (due s)) s.lookup
    → AcceptsAll s.python s.post
    → (items : List QueueItem) (w : World) → IsUp w
    → IsBatch s.config.batch_size s.queue (ok items, w)
    → DeliversDue s (rest_of_tick (some items) (record s { queue = w }))
after_batch s o known taking items w up (copies, rows, _, _, closed) =
    let t = record s { queue = w } in
    let there =
      subst (λ l. All (λ (item : QueueItem). IsThere l item.id) items) (sym rows)
        (batch-IsThere s.config.batch_size s.queue items o copies) in
    let d =
      process_all-Delivers items t
        (subst (λ l. AreKnown s.email l s.lookup) (sym (mails_in-AreCopies items (due s) copies))
          known)
        taking up there in
    let u = (process_all items t).1 in
    let quiet = maybe_alert_queue_size-IsQuiet u d.up in
    let same = maybe_alert_queue_size-SameQueue u in
    let seen : committed (maybe_alert_queue_size u).1.queue ≡ u.queue.rows =
      committed-same u.queue (maybe_alert_queue_size u).1.queue same.0 same.1
      ∙ ap (λ l. restored l u.queue.rows) ((process_all-Keeps items t).1 ∙ closed) in
    rw (d.returns) (record {
      returns = quiet.returns;
      delivered =
          All-ids _ items (due s) copies
            (subst (λ l. All (λ (item : QueueItem). IsDelivered l item.id) items) (sym seen) d.new);
      sent = quiet.posts ∙ d.sent ∙ ap (λ n. s.posts + n) (length-AreCopies items (due s) copies);
    })

-- A tick whose batch is taken goes on with it.
pub record IsBatched (s : Worker) : Type 0 where
  pub items : List QueueItem
  pub world : World
  pub up : IsUp world
  pub batch : IsBatch s.config.batch_size s.queue (ok items, world)
  pub runs : tick s ≡ rest_of_tick (some items) (record s { queue = world })

pub tick-IsBatched : (s : Worker) → IsUp s.queue → s.queue.saved ≡ none → IsBatched s
unfolding tick
tick-IsBatched s up closed =
    let limit = s.config.batch_size in
    let (items, taken) = dequeue_batch-returns limit s.queue up closed in
    let w = (dequeue_batch limit s.queue).1 in
    record {
      items = items;
      world = w;
      up = steady-IsUp (dequeue_batch limit) (dequeue_batch-IsSteady limit) s.queue up;
      batch = subst (λ r. IsBatch limit s.queue (r, w)) taken (dequeue_batch-IsBatch limit s.queue);
      runs = rw taken refl;
    }

-- A round in which nothing fails delivers all that is due: where the connection is open with no
-- transaction and no statement raises, the data sources of the due rows are found and their mails
-- parsed, and the server accepts every POST, `tick` returns, every due row, up to the size of a batch,
-- is in the committed table as delivered, and one POST was made for each. SQLite's order is one by
-- reception.
pub tick-DeliversDue :
    (s : Worker)
    → IsOrderBy s.queue.env
    → IsUp s.queue
    → s.queue.saved ≡ none
    → AreKnown s.email (mails_in (due s)) s.lookup
    → AcceptsAll s.python s.post
    → DeliversDue s (tick s)
tick-DeliversDue s o up closed known taking =
    let b = tick-IsBatched s up closed in
    subst (DeliversDue s) (sym b.runs) (after_batch s o known taking b.items b.world b.up b.batch)

-- ===== src/Worker/Process.antt =====
-- What `Worker._process` writes, on every branch.
use mail_router.Prelude.{
  ℕ, ◌+◌, ◌≤◌, ◌<◌, ◌≡◌, refl, sym, subst, ap, ap₂, ◌∙◌, Bool, true, false, Text, Option, none,
  some, codes, arith, inl, inr, Bool-cases, leb, ◌++◌,
}
use mail_router.Exec.{Result, ok, raise, pure, continue, ◌>>=◌}
use mail_router.Clock.{DateTime, add_seconds, to_aware}
use mail_router.Queue
use mail_router.Queue.Schema.{Row, QueueItem}
use mail_router.Queue.Sqlite.{World, utc_now, next_tick}
use mail_router.Queue.Updates.{
  delivered_row, retried_row, buried_row, at_id, IsUpdated, mark_delivered-IsUpdated,
  mark_retry-IsUpdated, mark_dead_letter-IsUpdated,
}
use mail_router.Client.{DsConfig, DeliveryResult, Request, ParsedEmail, request_of, send, success}
use mail_router.Lookup
use mail_router.Lookup.{Lookup}
use mail_router.Parser.{Parsed, parsed, parse_error, parse_eml}
use mail_router.Python.{Python}
use mail_router.Alerts
use mail_router.Alerts.{Alerter, Message, returns, notify-returns}
use mail_router.Worker.{
  Worker, WorkerConfig, dead_letter, dead_letter_alert, backoff_seconds, bound_text, http_text,
  key_to_send, send_item, on_queue, deliver, put_off, settle, send_parsed, process_at, process,
}

-- The lookup table has the item's data source, its mail can be parsed, and the POST of the two made
-- next ends so that `send` returns `r`.
abbrev pub Answered : Worker → QueueItem → DeliveryResult → Type 0
Answered s item r =
    (ds : DsConfig) × (mail : ParsedEmail) × ((Lookup.resolve item.ds_id s.lookup).0 ≡ ok (some ds))
    × (parse_eml s.email item.raw_eml ≡ parsed mail)
    × (send s.python (
          s.post s.posts (
            request_of s.python ds item.mailbox item.received_at mail item.raw_eml
              (key_to_send item.idempotency_key)))
        ≡ ok r)

-- The changes that the row of an item can undergo in `_process`.
pub data Change (s : Worker) (item : QueueItem) (c : Row → Row) : Type 0 where
  -- the server took the mail
  delivers :
      (r : DeliveryResult)
      → Answered s item r
      → success r ≡ true
      → (at : Text) (mid : Option Text) → bound_text r.message_id ≡ ok mid
      → c ≡ delivered_row at mid
      → Change s item c
  -- another attempt is left
  retries :
      (r : DeliveryResult)
      → Answered s item r
      → success r ≡ false
      → r.retry ≡ true
      → item.attempt_count + 1 < s.config.max_attempts
      → (delay : ℕ) → backoff_seconds s.config.backoff (item.attempt_count + 1) ≡ ok delay
      → c
        ≡ retried_row
            (item.attempt_count + 1)
            (add_seconds delay (to_aware (s.queue.env.clock s.queue.tick)))
            (http_text r)
      → Change s item c
  -- the server refused for good
  refused :
      (r : DeliveryResult)
      → Answered s item r
      → success r ≡ false
      → r.retry ≡ false
      → c ≡ buried_row (http_text r)
      → Change s item c
  -- no attempt is left
  exhausted :
      (r : DeliveryResult)
      → Answered s item r
      → success r ≡ false
      → r.retry ≡ true
      → s.config.max_attempts ≤ item.attempt_count + 1
      → c ≡ buried_row (codes "max_attempts exceeded after " ++ http_text r)
      → Change s item c
  -- the lookup table does not have the data source
  unknown :
      (Lookup.resolve item.ds_id s.lookup).0 ≡ ok none
      → c ≡ buried_row (codes "ds_id not in lookup: " ++ item.ds_id)
      → Change s item c
  -- the mail cannot be parsed
  unparsed :
      (ds : DsConfig)
      → (Lookup.resolve item.ds_id s.lookup).0 ≡ ok (some ds)
      → (exc : Text) → parse_eml s.email item.raw_eml ≡ parse_error exc
      → c ≡ buried_row (codes "parse_error: " ++ exc)
      → Change s item c

-- Either the row is changed in one of these ways and no other row is, or an exception leaves the
-- table as it was.
abbrev pub IsProcessed : Worker → QueueItem → Result Unit × Worker → Type 0
IsProcessed s item (ok _, s') =
    (c : Row → Row) × Change s item c × (s'.queue.rows ≡ at_id item.id c s.queue.rows)
IsProcessed s item (raise _, s') = s'.queue.rows ≡ s.queue.rows

-- The alert that follows a dead letter cannot fail.
alerted :
    (s : Worker) (item : QueueItem) (c : Row → Row) (w : World)
    → Change s item c
    → w.rows ≡ at_id item.id c s.queue.rows
    → (t : Worker) (a : Result Bool × Alerter) → returns a.0 ≡ true
    → IsProcessed s item (continue a.0 (λ _. pure tt) (record t { queue = w; alerter = a.1 }))
alerted s item c w change rows t (ok b, v) h = (c, change, rows)
alerted s item c w change rows t (raise e, v) h = cc

buried :
    (s t : Worker) (item : QueueItem) (reason : Text)
    → t.queue ≡ s.queue
    → ((c : Row → Row) → c ≡ buried_row reason → Change s item c)
    → IsProcessed s item (dead_letter item reason t)
unfolding dead_letter
buried s t item reason same why =
    go (Queue.mark_dead_letter item.id reason t.queue)
      (mark_dead_letter-IsUpdated item.id reason t.queue)
  where
    go :
        (a : Result Unit × World)
        → IsUpdated item.id (buried_row reason) t.queue a
        → IsProcessed s item (
            continue a.0
              (λ _ v.
                let b = Alerts.notify (dead_letter_alert item reason) v.alerter in
                continue b.0 (λ _. pure tt) (record v { alerter = b.1 }))
              (record t { queue = a.1 }))
    go (raise e, w) h = h ∙ ap (λ (q : World). q.rows) same
    go (ok u, w) h =
        alerted s item (buried_row reason) w (why _ refl)
          (subst (λ (q : World). w.rows ≡ at_id item.id (buried_row reason) q.rows) same h) t
          (Alerts.notify (dead_letter_alert item reason) t.alerter)
          (notify-returns (dead_letter_alert item reason) t.alerter)

delivered :
    (s t : Worker) (item : QueueItem) (r : DeliveryResult)
    → t.queue ≡ s.queue
    → Answered s item r
    → success r ≡ true
    → IsProcessed s item (deliver item r.message_id t)
delivered s t item r same answered taken = go (bound_text r.message_id) refl
  where
    written :
        (mid : Option Text)
        → bound_text r.message_id ≡ ok mid
        → (a : Result Unit × World)
        → (at : Text) × IsUpdated item.id (delivered_row at mid) t.queue a
        → IsProcessed s item (a.0, record t { queue = a.1 })
    written mid e (raise x, w) (at, h) = h ∙ ap (λ (q : World). q.rows) same
    written mid e (ok u, w) (at, h) = (
      delivered_row at mid,
      delivers r answered taken at mid e refl,
      subst (λ (q : World). w.rows ≡ at_id item.id (delivered_row at mid) q.rows) same h,
    )

    go :
        (b : Result (Option Text))
        → bound_text r.message_id ≡ b
        → IsProcessed s item (elim b [
          | ok text ↦ on_queue (Queue.mark_delivered item.id text) t
          | raise e ↦ (raise e, t)
        ])
    go (raise e) h = ap (λ (q : World). q.rows) same
    go (ok mid) h =
        written mid h (Queue.mark_delivered item.id mid t.queue)
          (mark_delivered-IsUpdated item.id mid t.queue)

retried :
    (s t : Worker) (item : QueueItem) (r : DeliveryResult)
    → t.queue ≡ s.queue
    → t.config ≡ s.config
    → Answered s item r
    → success r ≡ false
    → r.retry ≡ true
    → item.attempt_count + 1 < s.config.max_attempts
    → IsProcessed s item (put_off item r t)
unfolding put_off
retried s t item r same config answered not_taken again left =
    go (backoff_seconds t.config.backoff (item.attempt_count + 1))
      (ap (λ (k : WorkerConfig). backoff_seconds k.backoff (item.attempt_count + 1)) (sym config))
      refl
  where
    written :
        (delay : ℕ)
        → backoff_seconds s.config.backoff (item.attempt_count + 1) ≡ ok delay
        → (now : DateTime) → now ≡ to_aware (s.queue.env.clock s.queue.tick)
        → (w : World) → w.rows ≡ t.queue.rows
        → (a : Result Unit × World)
        → IsUpdated item.id
            (retried_row (item.attempt_count + 1) (add_seconds delay now) (http_text r))
            w
            a
        → IsProcessed s item (a.0, record t { queue = a.1 })
    written delay e now clock w ticked (raise x, v) h = h ∙ ticked ∙ ap (λ (q : World). q.rows) same
    written delay e now clock w ticked (ok u, v) h = (
      retried_row (item.attempt_count + 1) (add_seconds delay now) (http_text r),
      retries r answered not_taken again left delay e (
          ap (λ n. retried_row (item.attempt_count + 1) (add_seconds delay n) (http_text r)) clock),
      subst
          (λ l.
            v.rows
            ≡ at_id item.id
                (retried_row (item.attempt_count + 1) (add_seconds delay now) (http_text r)) l)
          (ticked ∙ ap (λ (q : World). q.rows) same) h,
    )

    go :
        (b : Result ℕ)
        → backoff_seconds s.config.backoff (item.attempt_count + 1) ≡ b
        → backoff_seconds t.config.backoff (item.attempt_count + 1) ≡ b
        → IsProcessed s item (
            continue b
              (λ delay. on_queue utc_now >>= λ now. on_queue (
                Queue.mark_retry item.id
                  (item.attempt_count + 1)
                  (add_seconds delay (to_aware now))
                  (http_text r)))
              t)
    go (raise e) h h' = ap (λ (q : World). q.rows) same
    go (ok delay) h h' =
        let now = to_aware (t.queue.env.clock t.queue.tick) in
        let w = next_tick t.queue in
        written delay h now (ap (λ (q : World). to_aware (q.env.clock q.tick)) same) w refl
          (Queue.mark_retry item.id (item.attempt_count + 1) (add_seconds delay now) (http_text r)
            w)
          (mark_retry-IsUpdated item.id (item.attempt_count + 1) (add_seconds delay now)
            (http_text r) w)

-- The four ways out once `send` has returned.
settled :
    (s t : Worker) (item : QueueItem) (r : DeliveryResult)
    → t.queue ≡ s.queue
    → t.config ≡ s.config
    → Answered s item r
    → IsProcessed s item (settle item r t)
unfolding settle
settled s t item r same config answered = elim (Bool-cases (success r)) [
  | inl taken ↦ rw taken (delivered s t item r same answered taken)
  | inr not_taken ↦ elim (Bool-cases r.retry) [
    | inr final ↦
        rw (not_taken, final)
          (buried s t item (http_text r) same (λ c e. Change.refused r answered not_taken final e))
    | inl again ↦ elim (Bool-cases (leb t.config.max_attempts (item.attempt_count + 1))) [
      | inl last ↦
          rw (not_taken, again, last)
            (buried s t item (codes "max_attempts exceeded after " ++ http_text r) same
              (λ c e. exhausted r answered not_taken again (ground arith) e))
      | inr left ↦
          rw (not_taken, again, left)
            (retried s t item r same config answered not_taken again (ground arith))
    ]
  ]
]

sent :
    (s t : Worker) (item : QueueItem) (ds : DsConfig) (mail : ParsedEmail)
    → t.queue ≡ s.queue
    → t.config ≡ s.config
    → t.python ≡ s.python
    → ((n : ℕ) (q : Request) → t.post t.posts q ≡ s.post s.posts q)
    → (Lookup.resolve item.ds_id s.lookup).0 ≡ ok (some ds)
    → parse_eml s.email item.raw_eml ≡ parsed mail
    → IsProcessed s item ((send_item item ds mail >>= settle item) t)
unfolding send_item
sent s t item ds mail same config py post found read =
    go (send t.python (t.post t.posts (request_for t.python))) (
      ap₂ send (sym py)
        (sym (post 0 (request_for t.python) ∙ ap (λ y. s.post s.posts (request_for y)) py)))
  where
    request_for : Python → Request
    request_for y =
        request_of y ds item.mailbox item.received_at mail item.raw_eml
          (key_to_send item.idempotency_key)

    go :
        (b : Result DeliveryResult)
        → send s.python (s.post s.posts (request_for s.python)) ≡ b
        → IsProcessed s item (continue b (settle item) (record t { posts = t.posts + 1 }))
    go (raise e) h = ap (λ (q : World). q.rows) same
    go (ok r) h =
        settled s (record t { posts = t.posts + 1 }) item r same config (ds, mail, found, read, h)

looked_up :
    (s : Worker) (item : QueueItem) (a : Result (Option DsConfig) × Lookup)
    → (Lookup.resolve item.ds_id s.lookup).0 ≡ a.0
    → IsProcessed s item (continue a.0 (process_at item) (record s { lookup = a.1 }))
unfolding process_at
looked_up s item (raise e, l) found = refl
looked_up s item (ok none, l) found =
    buried s (record s { lookup = l }) item (codes "ds_id not in lookup: " ++ item.ds_id) refl
      (λ c e. unknown found e)
looked_up s item (ok (some ds), l) found = go (parse_eml s.email item.raw_eml) refl
  where
    go :
        (p : Parsed)
        → parse_eml s.email item.raw_eml ≡ p
        → IsProcessed s item (send_parsed item ds p (record s { lookup = l }))
    go (parse_error exc) read =
        buried s (record s { lookup = l }) item (codes "parse_error: " ++ exc) refl
          (λ c e. unparsed ds found exc read e)
    go (parsed mail) read =
        sent s (record s { lookup = l }) item ds mail refl refl refl (λ _ _. refl) found read

-- `_process` ends in one of these ways. The row of the item is delivered, when the POST of the parsed
-- mail to the item's data source was answered so that the mail was taken. It is put off by the delay
-- of the attempt, with one attempt more, when the answer asks for it and attempts are left. It is
-- dead, with the reason, when the answer refuses for good, when no attempts are left, when the lookup
-- table does not have the data source, or when the mail cannot be parsed. Or an exception leaves the
-- table as it was. No other row changes.
pub process-IsProcessed : (item : QueueItem) (s : Worker) → IsProcessed s item (process item s)
unfolding process
process-IsProcessed item s = looked_up s item (Lookup.resolve item.ds_id s.lookup) refl

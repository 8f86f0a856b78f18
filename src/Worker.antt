-- ===== src/Worker.antt =====
-- The class `Worker` of mail_router/worker.py over the queue, the lookup table, the HTTP client and
-- the alerter. Each step that the event loop can interrupt is one call here: the worker is the only
-- task of its process.
pub mod Process
pub mod Keeps
pub mod Backoff
pub mod Lifecycle
pub mod Ready
pub mod Advance
pub mod Tick
pub mod Run
pub mod Held
pub mod Progress
pub mod Deliver
pub mod Round
pub mod Drain
pub mod Calm
pub mod Emptied
pub mod Drained
pub mod Attempts
pub mod Tests
use mail_router.Prelude.{
  ℕ, zero, suc, ◌+◌, ◌-◌, Bool, true, false, not, ◌&&◌, ◌||◌, Text, Option, none, some, List, [],
  ◌∷◌, ◌++◌, codes, ltb, leb, ◌==◌, min, starts_with, length, get_elem?, if◌then◌else◌,
}
use mail_router.Exec.{
  Exec, Error, Result, ok, raise, database, type_error, index_error, pure, raises, lift, catch,
  within, ◌>>=◌, ◌>>◌,
}
use mail_router.Json.{Json, null, bool, num, str, arr, obj}
use mail_router.Python.{Python, decimal}
use mail_router.Clock.{DateTime, add_seconds, to_aware}
use mail_router.Queue
use mail_router.Queue.Schema.{State, pending, QueueItem}
use mail_router.Queue.Sqlite.{World, utc_now}
use mail_router.Lookup
use mail_router.Lookup.{Lookup}
use mail_router.Client.{
  DsConfig, DeliveryResult, Outcome, Request, ParsedEmail, request_of, send, success,
}
use mail_router.Parser.{EmailPackage, Parsed, parsed, parse_error, parse_eml}
use mail_router.Alerts
use mail_router.Alerts.{Alerter, Message}

-- The fields of `WorkerConfig` that the worker reads, and the threshold for the backlog.
pub record WorkerConfig : Type 0 where
  pub batch_size : ℕ
  pub max_attempts : ℕ
  pub backoff : List ℕ
  pub queue_size_threshold : ℕ

-- The worker with the objects that it holds. `post` says how the POST ends that is made after
-- `posts` others.
pub record Worker : Type 0 where
  pub config : WorkerConfig
  pub queue : World
  pub lookup : Lookup
  pub alerter : Alerter
  pub python : Python
  pub email : EmailPackage
  pub post : ℕ → Request → Outcome
  pub posts : ℕ
  -- `str(stats)`, which depends on the order of the dict
  pub show_stats : (State → Option ℕ) → Text

abbrev pub on_queue : {A : Type 0} → Exec World A → Exec Worker A
on_queue = within (λ s. s.queue) (λ w s. record s { queue = w })

abbrev pub on_lookup : {A : Type 0} → Exec Lookup A → Exec Worker A
on_lookup = within (λ s. s.lookup) (λ l s. record s { lookup = l })

abbrev pub on_alerter : {A : Type 0} → Exec Alerter A → Exec Worker A
on_alerter = within (λ s. s.alerter) (λ a s. record s { alerter = a })

abbrev subject_of : QueueItem → Text
subject_of item = codes "mail dead-lettered (#" ++ (decimal item.id ++ codes ")")

abbrev body_of : QueueItem → Text → Text
body_of item reason =
    codes "Item #"
    ++ (decimal item.id
        ++ (codes "\nFrom: "
            ++ (item.sender_email
                ++ (codes "\nTo:   "
                    ++ (item.recipient_email
                        ++ (codes "\nDS:   "
                            ++ (item.ds_id ++ (codes "\nReason: " ++ (reason ++ codes "\n")))))))))

abbrev pub dead_letter_alert : QueueItem → Text → Message
dead_letter_alert item reason = record {
  event = codes "dead_letter";
  subject = subject_of item;
  body = body_of item reason;
}

-- `_dead_letter`
pub dead_letter : QueueItem → Text → Exec Worker Unit
dead_letter item reason = do
  on_queue (Queue.mark_dead_letter item.id reason)
  on_alerter (Alerts.notify (dead_letter_alert item reason))
  pure tt

-- `_backoff_seconds`: an empty list is indexed at -1, which raises IndexError
pub backoff_seconds : List ℕ → ℕ → Result ℕ
backoff_seconds [] attempt = raise index_error
backoff_seconds (b ∷ bs) attempt = elim (get_elem? (b ∷ bs) (min attempt (length bs))) [
  | none ↦ raise index_error
  | some d ↦ ok d
]

-- What SQLite makes of a JSON value bound to a TEXT column; it takes no list and no dict. A text with a
-- lone surrogate and an int of more than 64 bits make the statement raise, as the connection's
-- environment says.
abbrev pub bound_text : Json → Result (Option Text)
bound_text null = ok none
bound_text (bool true) = ok (some (codes "1"))
bound_text (bool false) = ok (some (codes "0"))
bound_text (num s _) = ok (some s)
bound_text (str s) = ok (some s)
bound_text (arr _) = raise database
bound_text (obj _) = raise database

abbrev pub key_to_send : Text → Option Text
key_to_send key = if starts_with (codes "nomid-") key then none else some key

abbrev error_of : Option Text → Text
error_of none = codes "None"
error_of (some e) = e

-- `f"HTTP {result.status_code}: {result.error}"`
abbrev pub http_text : DeliveryResult → Text
http_text r = codes "HTTP " ++ (decimal r.status_code ++ (codes ": " ++ error_of r.error))

-- `self._client.send(…)`: the POST and what becomes of it
pub send_item : QueueItem → DsConfig → ParsedEmail → Exec Worker DeliveryResult
send_item item ds mail s =
    let request =
      request_of s.python ds item.mailbox item.received_at mail item.raw_eml
        (key_to_send item.idempotency_key) in
    (send s.python (s.post s.posts request), record s { posts = s.posts + 1 })

-- `mark_delivered` binds the id that the server gave.
abbrev pub deliver : QueueItem → Json → Exec Worker Unit
deliver item message_id s = elim (bound_text message_id) [
  | ok text ↦ on_queue (Queue.mark_delivered item.id text) s
  | raise e ↦ (raise e, s)
]

-- The last part of `_process`: another attempt is put off.
pub put_off : QueueItem → DeliveryResult → Exec Worker Unit
unfolding backoff_seconds
put_off item r = do
  delay ← (λ s. (backoff_seconds s.config.backoff (item.attempt_count + 1), s))
  now ← on_queue utc_now
  on_queue (
      Queue.mark_retry item.id (item.attempt_count + 1) (add_seconds delay (to_aware now))
        (http_text r))

-- What `_process` does with the result of `send`.
pub settle : QueueItem → DeliveryResult → Exec Worker Unit
unfolding dead_letter put_off
settle item r s =
    if success r
    then deliver item r.message_id s
    else if not r.retry
    then dead_letter item (http_text r) s
    else if leb s.config.max_attempts (item.attempt_count + 1)
    then dead_letter item (codes "max_attempts exceeded after " ++ http_text r) s
    else put_off item r s

abbrev pub send_parsed : QueueItem → DsConfig → Parsed → Exec Worker Unit
unfolding send_item settle
send_parsed item ds (parse_error exc) = dead_letter item (codes "parse_error: " ++ exc)
send_parsed item ds (parsed mail) = do r ← send_item item ds mail; settle item r

abbrev pub process_at : QueueItem → Option DsConfig → Exec Worker Unit
unfolding send_parsed
process_at item none = dead_letter item (codes "ds_id not in lookup: " ++ item.ds_id)
process_at item (some ds) = λ s. send_parsed item ds (parse_eml s.email item.raw_eml) s

-- `_process`
pub process : QueueItem → Exec Worker Unit
unfolding process_at dead_letter
process item = do ds ← on_lookup (Lookup.resolve item.ds_id); process_at item ds

pub process_all : List QueueItem → Exec Worker Unit
unfolding process
process_all [] = pure tt
process_all (item ∷ items) = do process item; process_all items

abbrev pending_of : (State → Option ℕ) → ℕ
pending_of stats = elim (stats pending) [ none ↦ 0 | some n ↦ n ]

abbrev backlog_alert : Text → ℕ → ℕ → Message
backlog_alert stats n threshold = record {
  event = codes "queue_backlog";
  subject = codes "queue backlog " ++ (decimal n ++ (codes " > " ++ decimal threshold));
  body = codes "Queue stats: " ++ (stats ++ codes "\n");
}

-- `_maybe_alert_queue_size`
pub maybe_alert_queue_size : Exec Worker Unit
maybe_alert_queue_size = do
  stats ← on_queue Queue.stats
  let n = pending_of stats
  (λ s.
      if ltb s.config.queue_size_threshold n
      then (on_alerter
              (Alerts.notify (backlog_alert (s.show_stats stats) n s.config.queue_size_threshold))
            >> pure tt)
          s
      else (ok tt, s))

abbrev dequeued : Exec Worker (Option (List QueueItem))
dequeued s =
    catch (on_queue (Queue.dequeue_batch s.config.batch_size) >>= λ items. pure (some items))
      (λ _. pure none) s

abbrev rest_of_tick : Option (List QueueItem) → Exec Worker Unit
rest_of_tick none = pure tt
rest_of_tick (some batch) = do process_all batch; maybe_alert_queue_size

-- `tick`
pub tick : Exec Worker Unit
unfolding process_all maybe_alert_queue_size
tick = do batch ← dequeued; rest_of_tick batch

pub ticks : ℕ → Exec Worker Unit
ticks zero = pure tt
ticks (suc n) = do tick; ticks n

-- `run_forever`, stopped after `n` rounds of its loop
pub run_forever : ℕ → Exec Worker Unit
unfolding ticks tick
run_forever n = do on_queue Queue.requeue_in_flight; ticks n

-- ===== src/Worker/Keeps.antt =====
-- What the processing of an item leaves alone: the configuration, and the queue's transaction and
-- surroundings.
use mail_router.Prelude.{
  ◌+◌, ◌≡◌, refl, ◌∙◌, List, [], ◌∷◌, Text, Option, none, some, codes, arith, ◌++◌,
}
use mail_router.Clock.{add_seconds, to_aware}
use mail_router.Exec.{Exec, Result, ok, raise, continue}
use mail_router.Json.{Json}
use mail_router.Queue
use mail_router.Queue.Schema.{QueueItem}
use mail_router.Queue.Sqlite.{next_tick}
use mail_router.Queue.Updates.{mark_delivered-saved, mark_retry-saved, mark_dead_letter-saved}
use mail_router.Queue.Steady.{
  IsSteady-env, mark_delivered-IsSteady, mark_retry-IsSteady, mark_dead_letter-IsSteady,
}
use mail_router.Client.{DsConfig, DeliveryResult}
use mail_router.Lookup
use mail_router.Parser.{Parsed, parsed, parse_error, parse_eml}
use mail_router.Alerts
use mail_router.Worker.{
  process_all, Worker, dead_letter, dead_letter_alert, deliver, put_off, settle, send_item,
  send_parsed, process_at, process, bound_text, http_text, backoff_seconds, on_queue,
}

abbrev pub Keeps : {A : Type 0} → Worker → Result A × Worker → Type 0
Keeps s a =
    (a.1.config ≡ s.config) × (a.1.queue.saved ≡ s.queue.saved) × (a.1.queue.env ≡ s.queue.env)

continue-Keeps :
    {A B : Type 0} (c : Worker) (r : Result A) (f : A → Exec Worker B) (s : Worker)
    → (s.config ≡ c.config) × (s.queue.saved ≡ c.queue.saved) × (s.queue.env ≡ c.queue.env)
    → ((a : A) → Keeps c (f a s))
    → Keeps c (continue r f s)
continue-Keeps c (ok a) f s same h = h a
continue-Keeps c (raise e) f s same h = same

dead_letter-Keeps :
    (item : QueueItem) (reason : Text) (s : Worker) → Keeps s (dead_letter item reason s)
unfolding dead_letter
dead_letter-Keeps item reason s =
    let (r, w) = Queue.mark_dead_letter item.id reason s.queue in
    let saved = mark_dead_letter-saved item.id reason s.queue in
    let env =
      IsSteady-env (Queue.mark_dead_letter item.id reason)
        (mark_dead_letter-IsSteady item.id reason) s.queue in
    continue-Keeps s r _ (record s { queue = w }) (refl, saved, env)
      (λ _.
        let (r', a) = Alerts.notify (dead_letter_alert item reason) s.alerter in
        continue-Keeps s r' _ (record s { queue = w; alerter = a }) (refl, saved, env)
          (λ _. (refl, saved, env)))

deliver-Keeps : (item : QueueItem) (mid : Json) (s : Worker) → Keeps s (deliver item mid s)
deliver-Keeps item mid s = go (bound_text mid)
  where
    go :
        (b : Result (Option Text))
        → Keeps {A = Unit} s (elim b [
          | ok text ↦ on_queue (Queue.mark_delivered item.id text) s
          | raise e ↦ (raise e, s)
        ])
    go (ok text) = (
      refl,
      mark_delivered-saved item.id text s.queue,
      IsSteady-env (Queue.mark_delivered item.id text) (mark_delivered-IsSteady item.id text)
          s.queue,
    )
    go (raise e) = (refl, refl, refl)

put_off-Keeps : (item : QueueItem) (r : DeliveryResult) (s : Worker) → Keeps s (put_off item r s)
unfolding put_off
put_off-Keeps item r s =
    continue-Keeps s (backoff_seconds s.config.backoff (item.attempt_count + 1)) _ s
      (refl, refl, refl)
      (λ delay.
        let n = item.attempt_count + 1 in
        let at = add_seconds delay (to_aware (s.queue.env.clock s.queue.tick)) in
        (
          refl,
          mark_retry-saved item.id n at (http_text r) (next_tick s.queue),
          IsSteady-env (Queue.mark_retry item.id n at (http_text r))
              (mark_retry-IsSteady item.id n at (http_text r)) (next_tick s.queue),
        ))

settle-Keeps : (item : QueueItem) (r : DeliveryResult) (s : Worker) → Keeps s (settle item r s)
unfolding settle
settle-Keeps item r s = ground (
  arith,
  deliver-Keeps item r.message_id s,
  dead_letter-Keeps item (http_text r) s,
  dead_letter-Keeps item (codes "max_attempts exceeded after " ++ http_text r) s,
  put_off-Keeps item r s,
)

send_parsed-Keeps :
    (item : QueueItem) (ds : DsConfig) (p : Parsed) (s : Worker) → Keeps s (send_parsed item ds p s)
unfolding send_parsed send_item
send_parsed-Keeps item ds (parse_error exc) s =
    dead_letter-Keeps item (codes "parse_error: " ++ exc) s
send_parsed-Keeps item ds (parsed mail) s =
    let a = send_item item ds mail s in
    continue-Keeps s a.0 (settle item) a.1 (refl, refl, refl) (λ r. settle-Keeps item r a.1)

process_at-Keeps :
    (item : QueueItem) (ds : Option DsConfig) (s : Worker) → Keeps s (process_at item ds s)
unfolding process_at
process_at-Keeps item none s =
    dead_letter-Keeps item (codes "ds_id not in lookup: " ++ item.ds_id) s
process_at-Keeps item (some ds) s = send_parsed-Keeps item ds (parse_eml s.email item.raw_eml) s

pub process-Keeps : (item : QueueItem) (s : Worker) → Keeps s (process item s)
unfolding process
process-Keeps item s =
    let (r, l) = Lookup.resolve item.ds_id s.lookup in
    continue-Keeps s r (process_at item) (record s { lookup = l }) (refl, refl, refl)
      (λ ds. process_at-Keeps item ds (record s { lookup = l }))

pub process_all-Keeps : (items : List QueueItem) (s : Worker) → Keeps s (process_all items s)
unfolding process_all
process_all-Keeps [] s = (refl, refl, refl)
process_all-Keeps (item ∷ items) s =
    continue-Keeps s (process item s).0 (λ _. process_all items) (process item s).1
      (process-Keeps item s)
      (λ _.
        let (config, saved, env) = process-Keeps item s in
        let (config', saved', env') = process_all-Keeps items (process item s).1 in
        (config' ∙ config, saved' ∙ saved, env' ∙ env))

-- ===== src/Worker/Progress.antt =====
-- When `Worker._process` comes to an end without an exception.
use mail_router.Prelude.{
  ℕ, ◌+◌, ◌≡◌, refl, Bool, true, Text, Option, none, some, List, ◌∷◌, codes, inl, inr, Bool-cases,
  leb, ◌++◌,
}
use mail_router.Exec.{Result, ok, raise, pure, continue}
use mail_router.Clock.{add_seconds, to_aware}
use mail_router.Json.{Json}
use mail_router.Queue.Schema.{Row, QueueItem}
use mail_router.Queue.Sqlite.{World, next_tick}
use mail_router.Queue.Updates.{at_id}
use mail_router.Queue.Up.{
  IsUp, mark_delivered-returns, mark_retry-returns, mark_dead_letter-returns,
}
use mail_router.Client.{DsConfig, DeliveryResult, Request, send, success}
use mail_router.Lookup
use mail_router.Lookup.{Lookup}
use mail_router.Parser.{Parsed, parsed, parse_error, parse_eml}
use mail_router.Alerts
use mail_router.Alerts.{Alerter, returns, notify-returns}
use mail_router.Worker.{
  Worker, dead_letter, dead_letter_alert, bound_text, http_text, send_item, deliver, put_off,
  settle, send_parsed, process_at, process,
}
use mail_router.Worker.Backoff.{delay-at}
use mail_router.Worker.Process.{Change, IsProcessed, process-IsProcessed}

-- The answer is one that `send` returns for, with an id that SQLite takes.
abbrev pub IsUnderstood : Result DeliveryResult → Type 0
IsUnderstood (ok r) = (t : Option Text) × (bound_text r.message_id ≡ ok t)
IsUnderstood (raise e) = ⊥

then-returns :
    (a : Result Bool × Alerter) (s : Worker) (w : World)
    → returns a.0 ≡ true
    → (continue a.0 (λ _. pure {A = Unit {0}} tt) (record s { queue = w; alerter = a.1 })).0 ≡ ok tt
then-returns (ok b, v) s w h = refl
then-returns (raise e, v) s w h = cc

dead_letter-returns :
    (item : QueueItem) (reason : Text) (s : Worker)
    → IsUp s.queue
    → (dead_letter item reason s).0 ≡ ok tt
unfolding dead_letter
dead_letter-returns item reason s up = rw (mark_dead_letter-returns item.id reason s.queue up) (
    then-returns (Alerts.notify (dead_letter_alert item reason) s.alerter) s _
      (notify-returns (dead_letter_alert item reason) s.alerter))

deliver-returns :
    (item : QueueItem) (mid : Json) (text : Option Text) (s : Worker)
    → bound_text mid ≡ ok text
    → IsUp s.queue
    → (deliver item mid s).0 ≡ ok tt
deliver-returns item mid text s bound up =
    rw (deliver, bound, mark_delivered-returns item.id text s.queue up) refl

put_off-returns :
    (item : QueueItem) (r : DeliveryResult) (b : ℕ) (bs : List ℕ) (s : Worker)
    → s.config.backoff ≡ b ∷ bs
    → IsUp s.queue
    → (put_off item r s).0 ≡ ok tt
unfolding put_off
put_off-returns item r b bs s delays up =
    let (d, found, _) = delay-at b bs (item.attempt_count + 1) in
    rw
      (
        delays,
        found,
        mark_retry-returns item.id (item.attempt_count + 1)
            (add_seconds d (to_aware (s.queue.env.clock s.queue.tick))) (http_text r)
            (next_tick s.queue) (record { is_open = up.is_open; answers = up.answers }),
      )
      refl

settle-returns :
    (item : QueueItem) (r : DeliveryResult) (b : ℕ) (bs : List ℕ) (s : Worker)
    → IsUnderstood (ok r)
    → s.config.backoff ≡ b ∷ bs
    → IsUp s.queue
    → (settle item r s).0 ≡ ok tt
unfolding settle
settle-returns item r b bs s (text, bound) delays up = elim (Bool-cases (success r)) [
  | inl taken ↦ rw taken (deliver-returns item r.message_id text s bound up)
  | inr refused ↦ elim (Bool-cases r.retry) [
    | inr final ↦ rw (refused, final) (dead_letter-returns item (http_text r) s up)
    | inl again ↦ elim (Bool-cases (leb s.config.max_attempts (item.attempt_count + 1))) [
      | inl last ↦
          rw (refused, again, last)
            (dead_letter-returns item (codes "max_attempts exceeded after " ++ http_text r) s up)
      | inr left ↦ rw (refused, again, left) (put_off-returns item r b bs s delays up)
    ]
  ]
]

send_parsed-returns :
    (item : QueueItem) (ds : DsConfig) (p : Parsed) (b : ℕ) (bs : List ℕ) (s : Worker)
    → ((n : ℕ) (q : Request) → IsUnderstood (send s.python (s.post n q)))
    → s.config.backoff ≡ b ∷ bs
    → IsUp s.queue
    → (send_parsed item ds p s).0 ≡ ok tt
unfolding send_parsed send_item
send_parsed-returns item ds (parse_error exc) b bs s understood delays up =
    dead_letter-returns item (codes "parse_error: " ++ exc) s up
send_parsed-returns item ds (parsed mail) b bs s understood delays up = go _ (understood s.posts _)
  where
    go :
        (a : Result DeliveryResult)
        → IsUnderstood a
        → (continue a (settle item) (record s { posts = s.posts + 1 })).0 ≡ ok tt
    go (ok r) h = settle-returns item r b bs (record s { posts = s.posts + 1 }) h delays up
    go (raise e) h = absurd h

-- What `_process` did to the row.
abbrev pub Processed : Worker → QueueItem → Worker → Type 0
Processed s item t =
    (c : Row → Row) × Change s item c × (t.queue.rows ≡ at_id item.id c s.queue.rows)

changed :
    (s : Worker) (item : QueueItem) (a : Result Unit × Worker)
    → IsProcessed s item a
    → a.0 ≡ ok tt
    → (a.0 ≡ ok tt) × Processed s item a.1
changed s item (ok u, v) h e = (e, h)
changed s item (raise x, v) h e = cc

-- Where the lookup file can be read, the database is up, the list of delays is not empty, and each
-- answer of the server is understood, `_process` returns, and has delivered, put off or buried the row.
pub process-returns :
    (item : QueueItem) (b : ℕ) (bs : List ℕ) (s : Worker) (found : Option DsConfig)
    → (Lookup.resolve item.ds_id s.lookup).0 ≡ ok found
    → s.config.backoff ≡ b ∷ bs
    → ((n : ℕ) (q : Request) → IsUnderstood (send s.python (s.post n q)))
    → IsUp s.queue
    → ((process item s).0 ≡ ok tt) × Processed s item (process item s).1
unfolding process process_at
process-returns item b bs s found looked delays understood up =
    changed s item (process item s) (process-IsProcessed item s) (returned found looked)
  where
    l : Lookup
    l = (Lookup.resolve item.ds_id s.lookup).1

    returned :
        (found : Option DsConfig)
        → (Lookup.resolve item.ds_id s.lookup).0 ≡ ok found
        → (process item s).0 ≡ ok tt
    returned none e = rw e (
        dead_letter-returns item (codes "ds_id not in lookup: " ++ item.ds_id)
          (record s { lookup = l }) up)
    returned (some ds) e = rw e (
        send_parsed-returns item ds (parse_eml s.email item.raw_eml) b bs (record s { lookup = l })
          understood delays up)

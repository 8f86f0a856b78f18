-- ===== src/Worker/Deliver.antt =====
-- What the worker delivers when nothing fails and the server takes the mails.
use mail_router.Prelude.{
  ℕ, ◌+◌, ◌≡◌, refl, true, Text, Option, some, List, [], ◌∷◌, map, arith, length, All, All-map,
  find_first, if◌then◌else◌,
}
use mail_router.Exec.{Result, ok, raise, continue}
use mail_router.Python.{Python}
use mail_router.Queue.Schema.{delivered, Row, QueueItem, has_id}
use mail_router.Queue.Counts.{IsIn, find-id, map-find}
use mail_router.Queue.Updates.{at_id, delivered_row}
use mail_router.Queue.Up.{IsUp, mark_delivered-writes}
use mail_router.Client.{
  DsConfig, DeliveryResult, Outcome, Request, ParsedEmail, request_of, send, success,
}
use mail_router.Lookup
use mail_router.Lookup.{Lookup}
use mail_router.Parser.{EmailPackage, parsed, parse_eml}
use mail_router.Worker.{
  Worker, key_to_send, bound_text, send_item, deliver, settle, send_parsed, process_at, process,
  process_all,
}

-- The server takes the mail, and answers with an id that SQLite takes.
abbrev pub IsAcknowledged : Result DeliveryResult → Type 0
IsAcknowledged (ok r) = (success r ≡ true) × ((t : Option Text) × (bound_text r.message_id ≡ ok t))
IsAcknowledged (raise e) = ⊥

abbrev pub AcceptsAll : Python → (ℕ → Request → Outcome) → Type 0
AcceptsAll py post = (n : ℕ) (q : Request) → IsAcknowledged (send py (post n q))

-- The data source is found, and the mail can be parsed.
abbrev pub IsKnown : EmailPackage → Lookup → Text → Text → Type 0
IsKnown email l ds_id raw =
    ((ds : DsConfig) × ((Lookup.resolve ds_id l).0 ≡ ok (some ds)))
    × ((mail : ParsedEmail) × (parse_eml email raw ≡ parsed mail))

-- One after the other, the data sources are found, and the mails can be parsed.
abbrev pub AreKnown : EmailPackage → List (Text × Text) → Lookup → Type 0
AreKnown email [] l = Unit
AreKnown email ((ds_id, raw) ∷ mails) l =
    IsKnown email l ds_id raw × AreKnown email mails (Lookup.resolve ds_id l).1

-- The worker once the item is delivered.
abbrev pub with_delivered : QueueItem → Text → Option Text → Worker → Worker
with_delivered item at mid s = record s {
  lookup = (Lookup.resolve item.ds_id s.lookup).1;
  posts = s.posts + 1;
  queue = record s.queue {
    rows = at_id item.id (delivered_row at mid) s.queue.rows;
    tick = s.queue.tick + 1 + 1;
  };
}

-- A row of the id is there, and it is delivered.
abbrev pub IsDelivered : List Row → ℕ → Type 0
IsDelivered = IsIn delivered

abbrev pub IsThere : List Row → ℕ → Type 0
IsThere rows i = (r : Row) × (find_first (has_id i) rows ≡ some r)

module _ (j : ℕ) (at : Text) (mid : Option Text) where
  abbrev changed : Row → Row
  changed r = if has_id j r then delivered_row at mid r else r

  find-at_id :
      (i : ℕ) (rows : List Row) (r : Row)
      → find_first (has_id i) rows ≡ some r
      → find_first (has_id i) (at_id j (delivered_row at mid) rows) ≡ some (changed r)
  find-at_id i rows r found = map-find changed (λ x. ground arith) i rows r found

  at_id-IsThere :
      (i : ℕ) (rows : List Row) → IsThere rows i → IsThere (at_id j (delivered_row at mid) rows) i
  at_id-IsThere i rows (r, found) = (changed r, find-at_id i rows r found)

  at_id-IsDelivered :
      (i : ℕ) (rows : List Row)
      → IsDelivered rows i
      → IsDelivered (at_id j (delivered_row at mid) rows) i
  at_id-IsDelivered i rows (r, found, done) = (changed r, find-at_id i rows r found, ground arith)

new-IsDelivered :
    (i : ℕ) (at : Text) (mid : Option Text) (rows : List Row)
    → IsThere rows i
    → IsDelivered (at_id i (delivered_row at mid) rows) i
new-IsDelivered i at mid rows (r, found) =
    (changed i at mid r, find-at_id i at mid i rows r found, ground (arith, find-id i rows r found))

settled :
    (item : QueueItem) (s : Worker) (a : Result DeliveryResult)
    → IsAcknowledged a
    → IsUp s.queue
    → (at : Text) × (mid : Option Text) × (continue a
          (settle item)
          (record s { lookup = (Lookup.resolve item.ds_id s.lookup).1; posts = s.posts + 1 })
        ≡ (ok tt, with_delivered item at mid s))
unfolding settle
settled item s (raise e) taken up = absurd taken
settled item s (ok r) (good, (mid, bound)) up =
    let (at, written) = mark_delivered-writes item.id mid s.queue up in
    (at, mid, rw (good, deliver, bound, written) refl)

pub process-delivers :
    (item : QueueItem) (s : Worker)
    → IsKnown s.email s.lookup item.ds_id item.raw_eml
    → AcceptsAll s.python s.post
    → IsUp s.queue
    → (at : Text) × (mid : Option Text) × (process item s ≡ (ok tt, with_delivered item at mid s))
unfolding process process_at send_parsed send_item
process-delivers item s ((ds, found), (mail, read)) taking up =
    let l = (Lookup.resolve item.ds_id s.lookup).1 in
    let request =
      request_of s.python ds item.mailbox item.received_at mail item.raw_eml
        (key_to_send item.idempotency_key) in
    let (at, mid, e) =
      settled item s (send s.python (s.post s.posts request)) (taking s.posts request) up in
    (at, mid, rw (found, read) e)

abbrev pub mails_of : List QueueItem → List (Text × Text)
mails_of items = map (λ item. (item.ds_id, item.raw_eml)) items

-- Every item is delivered, and what was delivered before still is.
pub record Delivers (items : List QueueItem) (s : Worker) (a : Result Unit × Worker) : Type 0 where
  pub returns : a.0 ≡ ok tt
  pub kept : (i : ℕ) → IsDelivered s.queue.rows i → IsDelivered a.1.queue.rows i
  pub new : All (λ item. IsDelivered a.1.queue.rows item.id) items
  pub up : IsUp a.1.queue
  pub sent : a.1.posts ≡ s.posts + length items

pub process_all-Delivers :
    (items : List QueueItem) (s : Worker)
    → AreKnown s.email (mails_of items) s.lookup
    → AcceptsAll s.python s.post
    → IsUp s.queue
    → All (λ item. IsThere s.queue.rows item.id) items
    → Delivers items s (process_all items s)
unfolding process_all
process_all-Delivers [] s known taking up there = record {
  returns = refl;
  kept = λ i d. d;
  new = tt;
  up = up;
  sent = ground arith;
}
process_all-Delivers (item ∷ items) s (known, others) taking up (here, there) =
    let (at, mid, e) = process-delivers item s known taking up in
    let t = with_delivered item at mid s in
    let later =
      process_all-Delivers items t others taking
        (record { is_open = up.is_open; answers = up.answers })
        (All-map items (λ i. at_id-IsThere item.id at mid i.id s.queue.rows) there) in
    rw e (record {
      returns = later.returns;
      kept = λ i d. later.kept i (at_id-IsDelivered item.id at mid i s.queue.rows d);
      new = (later.kept item.id (new-IsDelivered item.id at mid s.queue.rows here), later.new);
      up = later.up;
      sent = omega (arith, later.sent);
    })

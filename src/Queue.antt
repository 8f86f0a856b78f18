-- ===== src/Queue.antt =====
-- The class `Queue` of mail_router/queue.py, method by method. The internal lock makes each method
-- one step; other connections act between the steps.
pub mod Schema
pub mod Sqlite
pub mod Table
pub mod Open
pub mod Interleave
pub mod Steady
pub mod Up
pub mod Counts
pub mod Marked
pub mod Requeued
pub mod Reads
pub mod Enqueue
pub mod Dequeue
pub mod Items
pub mod Batch
pub mod Invariant
pub mod Durable
pub mod Delivery
pub mod Retry
pub mod Updates
pub mod Sorting
pub mod Tests
use mail_router.Prelude.{
  ℕ, ◌+◌, Bool, true, false, not, ◌&&◌, Text, Option, none, some, List, [], ◌∷◌, ◌++◌, map, take,
  length, select, count, find_first, member, text_le, leb, ◌==◌, if◌then◌else◌,
}
use mail_router.Clock.{DateTime, isoformat, whole_second, to_naive, to_aware, sub_days}
use Schema.{
  State, pending, in_flight, delivered, dead_letter, Row, QueueItem, can_take, has_id, has_key,
  has_state, state_eq,
}
use Sqlite.{
  World, Action, Error, type_error, pure, raises, ◌>>=◌, ◌>>◌, catch, execute, next_tick, utc_now,
}

-- `_utcnow`
abbrev pub utcnow : Action DateTime
utcnow = do t ← utc_now; pure (to_aware (whole_second t))

-- `_parse_ts`
abbrev pub parse_ts : World → Option Text → Option DateTime
parse_ts w none = none
parse_ts w (some value) = elim (w.env.fromisoformat value) [
  | none ↦ none
  | some dt ↦ some (if dt.aware then dt else to_aware dt)
]

abbrev pub item_of : World → Row → DateTime → QueueItem
item_of w r received = record {
  id = r.id;
  state = r.state;
  received_at = received;
  sender_email = r.sender_email;
  recipient_email = r.recipient_email;
  ds_id = r.ds_id;
  mailbox = r.mailbox;
  idempotency_key = r.idempotency_key;
  raw_eml = r.raw_eml;
  attempt_count = r.attempt_count;
  next_attempt_at = parse_ts w r.next_attempt_at;
  last_error = r.last_error;
  delivered_at = parse_ts w r.delivered_at;
  delivered_message_id = r.delivered_message_id;
  dead_letter_reason = r.dead_letter_reason;
}

-- `_row_to_item`: the clock is read only if `received_at` cannot be parsed
pub row_to_item : Row → Action QueueItem
row_to_item r w = elim (parse_ts w (some r.received_at)) [
  | none ↦ (do t ← utcnow; pure (item_of w r t)) w
  | some t ↦ (Sqlite.ok (item_of w r t), w)
]

pub rows_to_items : List Row → Action (List QueueItem)
rows_to_items [] = pure []
rows_to_items (r ∷ rs) = do item ← row_to_item r; items ← rows_to_items rs; pure (item ∷ items)

-- The keyword arguments of `enqueue`.
pub record Mail : Type 0 where
  pub sender_email : Text
  pub recipient_email : Text
  pub ds_id : Text
  pub mailbox : Option Text
  pub idempotency_key : Text
  pub raw_eml : Text

abbrev pub new_row : ℕ → Text → Mail → Row
new_row id received m = record {
  id = id;
  state = pending;
  received_at = received;
  sender_email = m.sender_email;
  recipient_email = m.recipient_email;
  ds_id = m.ds_id;
  mailbox = m.mailbox;
  idempotency_key = m.idempotency_key;
  raw_eml = m.raw_eml;
  attempt_count = 0;
  next_attempt_at = none;
  last_error = none;
  delivered_at = none;
  delivered_message_id = none;
  dead_letter_reason = none;
}

-- `INSERT … ON CONFLICT(idempotency_key) DO NOTHING`, by the row that has the key already: the new
-- id, if a row was inserted
abbrev pub insert_unless : Option Row → Text → Mail → World → Option ℕ × World
insert_unless (some _) received m w = (none, record w { sequence = w.sequence + w.env.lost_ids })
insert_unless none received m w = (
  some (w.sequence + 1),
  record w { rows = w.rows ++ new_row (w.sequence + 1) received m ∷ []; sequence = w.sequence + 1 },
)

abbrev pub with_key : Text → World → Option Row
with_key key w = find_first (has_key key) w.rows

abbrev pub insert_row : Text → Mail → World → Option ℕ × World
insert_row received m w = insert_unless (with_key m.idempotency_key w) received m w

-- `int(row["id"])` of a `fetchone()` that may be None
abbrev id_of : Option Row → Action ℕ
id_of none = raises type_error
id_of (some r) = pure r.id

abbrev pub enqueued : Mail → Option ℕ → Action (ℕ × Bool)
enqueued m (some id) = pure (id, true)
enqueued m none = do
  row ← execute (λ w. (with_key m.idempotency_key w, w))
  id ← id_of row
  pure (id, false)

unfoldable pub enqueue : Mail → Action (ℕ × Bool)
enqueue m = do now ← utcnow; inserted ← execute (insert_row (isoformat now) m); enqueued m inserted

-- BEGIN is refused within a transaction.
abbrev pub begin_unless : Option (List Row) → Action Unit
begin_unless none w = execute (λ v. (tt, record v { saved = some v.rows })) w
begin_unless (some _) w = (Sqlite.raise Sqlite.database, next_tick w)

abbrev pub begin_immediate : Action Unit
begin_immediate w = begin_unless w.saved w

abbrev pub commit : Action Unit
commit = execute (λ w. (tt, record w { saved = none }))

abbrev pub restored : Option (List Row) → List Row → List Row
restored none now = now
restored (some before) now = before

abbrev pub rollback : Action Unit
rollback = execute (λ w. (tt, record w { rows = restored w.saved w.rows; saved = none }))

-- The SELECT of `dequeue_batch`
abbrev pub select_due : Text → ℕ → World → List Row × World
select_due now limit w = (take limit (w.env.order_by_received (select (can_take now) w.rows)), w)

abbrev pub ids : List Row → List ℕ
ids rs = map (λ r. r.id) rs

abbrev pub mark_in_flight : List ℕ → Row → Row
mark_in_flight ids r = if member r.id ids then record r { state = in_flight } else r

abbrev pub take_rows : List Row → Action (List Row)
take_rows [] = do commit; pure []
take_rows (r ∷ rs) = do
  execute (λ w. (tt, record w { rows = map (mark_in_flight (ids (r ∷ rs))) w.rows }))
  commit
  pure (r ∷ rs)

-- The body of the `with self._lock` block.
pub dequeue_rows : Text → ℕ → Action (List Row)
dequeue_rows now limit = do
  begin_immediate
  catch (do rows ← execute (select_due now limit); take_rows rows) (λ e. do rollback; raises e)

pub dequeue_batch : ℕ → Action (List QueueItem)
unfolding dequeue_rows rows_to_items row_to_item
dequeue_batch limit = do now ← utcnow; rows ← dequeue_rows (isoformat now) limit; rows_to_items rows

-- `UPDATE queue SET … WHERE …`: the number of rows touched
abbrev pub update_where : (Row → Bool) → (Row → Row) → World → ℕ × World
update_where test change w =
    (count test w.rows, record w { rows = map (λ r. if test r then change r else r) w.rows })

pub mark_delivered : ℕ → Option Text → Action Unit
mark_delivered item_id delivered_message_id = do
  now ← utcnow
  execute (
      update_where (has_id item_id) (λ r. record r {
        state = delivered;
        delivered_at = some (isoformat now);
        delivered_message_id = delivered_message_id;
        last_error = none;
      }))
  pure tt

-- `next_attempt_at` is in UTC, as the callers give it.
unfoldable pub mark_retry : ℕ → ℕ → DateTime → Text → Action Unit
mark_retry item_id attempt_count next_attempt_at last_error = do
  execute (
      update_where (has_id item_id) (λ r. record r {
        state = pending;
        attempt_count = attempt_count;
        next_attempt_at = some (isoformat (to_naive next_attempt_at));
        last_error = some last_error;
      }))
  pure tt

pub mark_dead_letter : ℕ → Text → Action Unit
mark_dead_letter item_id reason = do
  execute (
      update_where (has_id item_id) (λ r. record r {
        state = dead_letter;
        dead_letter_reason = some reason;
        last_error = some reason;
      }))
  pure tt

unfoldable pub requeue_in_flight : Action ℕ
requeue_in_flight =
    execute (
      update_where (has_state in_flight)
        (λ r. record r { state = pending; next_attempt_at = none }))

-- The dict of `stats`, whose order is not modelled: a state that no row has is no key.
pub stats : Action (State → Option ℕ)
stats =
    execute (λ w. ((λ s. let n = count (has_state s) w.rows in if n == 0 then none else some n), w))

abbrev pub insert_by : (Row → Row → Bool) → Row → List Row → List Row
insert_by before r [] = r ∷ []
insert_by before r (q ∷ qs) = if before r q then r ∷ q ∷ qs else q ∷ insert_by before r qs

abbrev pub sort_by : (Row → Row → Bool) → List Row → List Row
sort_by before [] = []
sort_by before (r ∷ rs) = insert_by before r (sort_by before rs)

pub list_dead_letters : ℕ → Action (List QueueItem)
unfolding rows_to_items row_to_item
list_dead_letters limit = do
  rows ← execute (λ w.
      (take limit (sort_by (λ a b. leb b.id a.id) (select (has_state dead_letter) w.rows)), w))
  rows_to_items rows

-- `delivered_at < cutoff`, which NULL does not pass
abbrev pub is_before : Text → Option Text → Bool
is_before cutoff none = false
is_before cutoff (some at) = not (text_le cutoff at)

abbrev pub is_old : Text → Row → Bool
is_old cutoff r = state_eq r.state delivered && is_before cutoff r.delivered_at

pub prune_delivered : ℕ → Action ℕ
prune_delivered days = do
  now ← utcnow
  let cutoff = isoformat (sub_days days now)
  execute (λ w. (
    count (is_old cutoff) w.rows,
    record w { rows = select (λ r. not (is_old cutoff r)) w.rows },
  ))

abbrev item_or_none : Option Row → Action (Option QueueItem)
item_or_none none = pure none
item_or_none (some r) = do item ← row_to_item r; pure (some item)

pub get : ℕ → Action (Option QueueItem)
unfolding row_to_item
get item_id = do row ← execute (λ w. (find_first (has_id item_id) w.rows, w)); item_or_none row

pub iter_all : Action (List QueueItem)
unfolding rows_to_items row_to_item
iter_all = do rows ← execute (λ w. (sort_by (λ a b. leb a.id b.id) w.rows, w)); rows_to_items rows

-- Closing the connection rolls an open transaction back.
unfoldable pub close : World → World
close w = record w { rows = restored w.saved w.rows; saved = none; closed = true }

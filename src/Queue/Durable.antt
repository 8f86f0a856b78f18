-- ===== src/Queue/Durable.antt =====
-- Mail that the queue has taken stays in it, with its content, until it is delivered and pruned.
use mathlib.Core.Option
use mail_router.Prelude.{
  ℕ, ◌≡◌, refl, ◌∙◌, ap, sym, subst, Bool, true, false, Option, none, some, List, [], ◌∷◌, map,
  arith, inl, inr, Bool-cases, find_first, if◌then◌else◌, text_eq, text_eq_refl,
}
use mail_router.Queue.Schema.{
  in_flight, delivered, Row, QueueItem, has_id, has_state, has_key, state_eq,
}
use mail_router.Queue.Sqlite.{
  World, Result, ok, raise, next_tick, is_down, then-pure, execute, pure, ◌>>◌,
}
use mail_router.Queue.{
  Mail, enqueue, dequeue_batch, mark_delivered, mark_retry, mark_dead_letter, requeue_in_flight,
  prune_delivered, close, new_row, mark_in_flight, update_where, restored, ids,
}
use mail_router.Queue.Table.{find-map, find-append, find-append_new, find-select_kept}
use mail_router.Queue.Enqueue.{stamp, IsEnqueued, enqueue-IsEnqueued}
use mail_router.Queue.Dequeue.{IsUndone, due_rows}
use mail_router.Queue.Batch.{IsBatch, dequeue_batch-IsBatch}
use mail_router.Queue.Invariant.{
  Call, enqueues, dequeues, delivers, retries, buries, requeues, prunes, closes, restarts, after,
  restart, run,
}

-- What of a row came in with the mail.
abbrev pub mail_of : Row → Mail
mail_of r = record {
  sender_email = r.sender_email;
  recipient_email = r.recipient_email;
  ds_id = r.ds_id;
  mailbox = r.mailbox;
  idempotency_key = r.idempotency_key;
  raw_eml = r.raw_eml;
}

-- A mail with the id of its row.
abbrev pub Entry : Type 0
Entry = ℕ × Mail

abbrev pub entry_of : Row → Entry
entry_of r = (r.id, mail_of r)

-- The row with the mail's key holds the mail, under its id.
abbrev pub IsHeld : Entry → List Row → Type 0
IsHeld m rows =
    (r : Row) × (find_first (has_key m.1.idempotency_key) rows ≡ some r) × (entry_of r ≡ m)

abbrev pub IsHeldSaved : Entry → Option (List Row) → Type 0
IsHeldSaved m none = Unit
IsHeldSaved m (some rows) = IsHeld m rows

-- The table holds the mail, and would still if an open transaction were rolled back.
pub record IsDurable (m : Entry) (w : World) : Type 0 where
  pub now : IsHeld m w.rows
  pub snapshot : IsHeldSaved m w.saved

map-IsHeld :
    (f : Row → Row)
    → ((r : Row) → entry_of (f r) ≡ entry_of r)
    → (m : Entry) (rows : List Row) → IsHeld m rows
    → IsHeld m (map f rows)
map-IsHeld f same m rows (r, found, e) = (
  f r,
  find-map (has_key m.1.idempotency_key) f
        (λ q. ap (λ (n : Entry). text_eq n.1.idempotency_key m.1.idempotency_key) (same q)) rows
      ∙ ap (Option.map f) found,
  same r ∙ e,
)

pub restored-IsHeld :
    (m : Entry) (saved : Option (List Row)) (rows : List Row)
    → IsHeld m rows
    → IsHeldSaved m saved
    → IsHeld m (restored saved rows)
restored-IsHeld m none rows h s = h
restored-IsHeld m (some before) rows h s = s

kept-IsDurable :
    (m : Entry) (w w' : World)
    → w'.rows ≡ w.rows
    → w'.saved ≡ w.saved
    → IsDurable m w
    → IsDurable m w'
kept-IsDurable m w w' rows saved d = record {
  now = subst (IsHeld m) (sym rows) d.now;
  snapshot = subst (IsHeldSaved m) (sym saved) d.snapshot;
}

module _ (test : Row → Bool) (change : Row → Row)
    (same : (r : Row) → entry_of (change r) ≡ entry_of r) where
  update-IsDurable :
      (m : Entry) (w : World) → IsDurable m w → IsDurable m (execute (update_where test change) w).1
  update-IsDurable m w d = elim (Bool-cases (is_down w)) [
    | inl f ↦ rw f (record { now = d.now; snapshot = d.snapshot })
    | inr f ↦ rw f (record {
      now =
          map-IsHeld (λ r. if test r then change r else r) (λ r. ground (arith, same r)) m w.rows
            d.now;
      snapshot = d.snapshot;
    })
  ]

  update_done-IsDurable :
      (m : Entry) (w : World)
      → IsDurable m w
      → IsDurable m ((execute (update_where test change) >> pure {A = Unit {0}} tt) w).1
  update_done-IsDurable m w d =
      let a = execute (update_where test change) w in
      subst (IsDurable m) (sym (then-pure a.0 tt a.1)) (update-IsDurable m w d)

mark-IsHeld :
    (taken : List ℕ) (m : Entry) (rows : List Row)
    → IsHeld m rows
    → IsHeld m (map (mark_in_flight taken) rows)
mark-IsHeld taken = map-IsHeld (mark_in_flight taken) (λ r. ground arith)

enqueued-IsDurable :
    (n : Mail) (m : Entry) (w : World) (a : Result (ℕ × Bool) × World)
    → IsEnqueued n w a
    → IsDurable m w
    → IsDurable m a.1
enqueued-IsDurable n m w (ok (id, true), w') (_, _, _, rows, saved) d = record {
  now =
      subst (IsHeld m) (sym rows)
        (d.now.0, find-append (has_key m.1.idempotency_key) w.rows _ d.now.0 d.now.1, d.now.2);
  snapshot = subst (IsHeldSaved m) (sym saved) d.snapshot;
}
enqueued-IsDurable n m w (ok (id, false), w') (r, found, _, rows, le, saved) d =
    kept-IsDurable m w w' rows saved d
enqueued-IsDurable n m w (raise e, w') (_, rows, le, saved) d = kept-IsDurable m w w' rows saved d

undone-IsDurable : (m : Entry) (w w' : World) → IsUndone w w' → IsDurable m w → IsDurable m w'
undone-IsDurable m w w' (_, inl (rows, saved)) d = kept-IsDurable m w w' rows saved d
undone-IsDurable m w w' (_, inr (_, saved, (taken, rows))) d = record {
  now = subst (IsHeld m) (sym rows) (mark-IsHeld taken m w.rows d.now);
  snapshot = subst (IsHeldSaved m) (sym saved) d.now;
}

batch-IsDurable :
    (limit : ℕ) (m : Entry) (w : World) (a : Result (List QueueItem) × World)
    → IsBatch limit w a
    → IsDurable m w
    → IsDurable m a.1
batch-IsDurable limit m w (raise e, w') (_, undone) d = undone-IsDurable m w w' undone d
batch-IsDurable limit m w (ok items, w') (_, rows, _, _, saved) d = record {
  now = subst (IsHeld m) (sym rows) (mark-IsHeld (ids (due_rows (stamp w) limit w)) m w.rows d.now);
  snapshot = subst (IsHeldSaved m) (sym saved) tt;
}

abbrev pub is_prune : Call → Bool
is_prune (prunes days) = true
is_prune _ = false

-- Every call but a prune keeps the mail.
pub after-IsDurable :
    (c : Call) (m : Entry) (w : World)
    → is_prune c ≡ false
    → IsDurable m w
    → IsDurable m (after c w)
unfolding after mark_delivered mark_retry mark_dead_letter requeue_in_flight close restart
after-IsDurable (enqueues n) m w h d =
    enqueued-IsDurable n m w (enqueue n w) (enqueue-IsEnqueued n w) d
after-IsDurable (dequeues limit) m w h d =
    batch-IsDurable limit m w (dequeue_batch limit w) (dequeue_batch-IsBatch limit w) d
after-IsDurable (delivers id mid) m w h d =
    update_done-IsDurable (has_id id) _ (λ r. refl) m (next_tick w)
      (record { now = d.now; snapshot = d.snapshot })
after-IsDurable (retries id n at e) m w h d = update_done-IsDurable (has_id id) _ (λ r. refl) m w d
after-IsDurable (buries id reason) m w h d = update_done-IsDurable (has_id id) _ (λ r. refl) m w d
after-IsDurable requeues m w h d = update-IsDurable (has_state in_flight) _ (λ r. refl) m w d
after-IsDurable (prunes days) m w h d = cc
after-IsDurable closes m w h d = record {
  now = restored-IsHeld m w.saved w.rows d.now d.snapshot;
  snapshot = tt;
}
after-IsDurable (restarts env) m w h d = record {
  now = restored-IsHeld m w.saved w.rows d.now d.snapshot;
  snapshot = tt;
}

-- A prune keeps a mail whose row is not delivered.
prune-IsDurable :
    (days : ℕ) (m : Entry) (w : World)
    → (d : IsDurable m w) → state_eq d.now.0.state delivered ≡ false
    → IsDurable m (prune_delivered days w).1
unfolding prune_delivered
prune-IsDurable days m w d h = elim (Bool-cases (is_down (next_tick w))) [
  | inl f ↦ rw f (record { now = d.now; snapshot = d.snapshot })
  | inr f ↦ rw f (record {
    now = (
      d.now.0,
      find-select_kept (has_key m.1.idempotency_key) _ w.rows d.now.0 d.now.1 (ground arith),
      d.now.2,
    );
    snapshot = d.snapshot;
  })
]

abbrev pub has_prune : List Call → Bool
has_prune [] = false
has_prune (c ∷ cs) = if is_prune c then true else has_prune cs

pub run-IsDurable :
    (cs : List Call) (m : Entry) (w : World)
    → has_prune cs ≡ false
    → IsDurable m w
    → IsDurable m (run cs w)
unfolding run
run-IsDurable [] m w h d = d
run-IsDurable (c ∷ cs) m w h d =
    run-IsDurable cs m (after c w) (ground arith) (after-IsDurable c m w (ground arith) d)

new-IsDurable :
    (m : Mail) (w : World) (id : ℕ) (a : Result (ℕ × Bool) × World)
    → IsEnqueued m w a
    → w.saved ≡ none
    → a.0 ≡ ok (id, true)
    → IsDurable (id, m) a.1
new-IsDurable m w id (ok (i, true), w') (fresh, new, top, rows, saved) none_open e =
    let id_same : i ≡ id = cc in
    subst (λ n. IsDurable (n, m) w') (id_same)
      (record {
        now = subst (IsHeld (i, m)) (sym rows) (
          new_row i (stamp w) m,
          find-append_new (has_key m.idempotency_key) w.rows (new_row i (stamp w) m) fresh
              (text_eq_refl m.idempotency_key),
          refl,
        );
        snapshot = subst (IsHeldSaved (i, m)) (sym (saved ∙ none_open)) tt;
      })
new-IsDurable m w id (ok (i, false), w') h none_open e = cc
new-IsDurable m w id (raise x, w') h none_open e = cc

-- If `enqueue` returns that it has created a row, outside of a transaction, then after any calls,
-- errors and restarts but prunes the table still holds the mail, under the id that was returned, with
-- all that came in with it.
pub enqueue-run-IsDurable :
    (m : Mail) (w : World) (id : ℕ) (cs : List Call)
    → w.saved ≡ none
    → (enqueue m w).0 ≡ ok (id, true)
    → has_prune cs ≡ false
    → IsDurable (id, m) (run cs (enqueue m w).1)
enqueue-run-IsDurable m w id cs none_open e h =
    run-IsDurable cs (id, m) (enqueue m w).1 h
      (new-IsDurable m w id (enqueue m w) (enqueue-IsEnqueued m w) none_open e)

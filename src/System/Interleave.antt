-- ===== src/System/Interleave.antt =====
-- The receiver and the worker at once, on one queue file: their steps in any order.
use mail_router.Prelude.{
  ℕ, ◌+◌, ◌≡◌, refl, ◌∙◌, ap, sym, subst, Text, Option, none, some, List, [], ◌∷◌, find_first, Bool,
  true, false, Bool-cases, inl, inr, arith,
}
use mail_router.Exec.{Result, ok, raise}
use mail_router.Queue.{requeue_in_flight, restored}
use mail_router.Queue.Schema.{Row, has_key}
use mail_router.Queue.Sqlite.{World, is_down, next_tick}
use mail_router.Queue.Table.{IsTable}
use mail_router.Queue.{Mail, enqueue}
use mail_router.Queue.Enqueue.{IsEnqueued, enqueue-IsEnqueued}
use mail_router.Queue.Invariant.{IsValid, restart, after, enqueues, after-IsValid}
use mail_router.Queue.Delivery.{IsOrderBy}
use mail_router.Queue.Durable.{IsDurable, after-IsDurable, IsHeld, entry_of, Entry}
use mail_router.Receiver.{Envelope, handle_data}
use mail_router.Receiver.Keeps.{handle_data-Kept}
use mail_router.Queue.Updates.{requeue_in_flight-saved}
use mail_router.Queue.Steady.{IsSteady-env, requeue_in_flight-IsSteady}
use mail_router.Receiver.{extract_message_id, accepted_text}
use mail_router.Queue.Interleave.{has_key-find}
use mail_router.System.Lived.{Lives-IsTable, requeued-IsTable}
use mail_router.System.Steps.{
  Router, Event, receives, works, starts, after_event, after_events, IsShared, locked, receive,
}
use mail_router.Receiver.Reloads.{HasRow, StoodOrNew, AreServed, AreServed-map, handle_data-serves}
use mail_router.System.{IsKept}
use mail_router.Worker.Held.{Lives-IsHeld, requeued-IsHeld}
use mail_router.Worker.{tick}
use mail_router.Worker.Ready.{IsTable-DifferentIds}
use mail_router.Worker.Tick.{committed, tick-Ticks}
use mail_router.Worker.Run.{tick-Fixed}

-- The connection of a receiver, before a mail and after it
record Ready (w : World) : Type 0 where
  valid : IsValid w
  closed : w.saved ≡ none

enqueue-Ready : (m : Mail) (w : World) → Ready w → Ready (enqueue m w).1
unfolding after
enqueue-Ready m w h = record {
  valid = after-IsValid (enqueues m) w h.valid;
  closed = go (enqueue m w) (enqueue-IsEnqueued m w);
}
  where
    go : (a : Result (ℕ × Bool) × World) → IsEnqueued m w a → a.1.saved ≡ none
    go (ok (id, true), v) (_, _, _, _, saved) = saved ∙ h.closed
    go (ok (id, false), v) (_, _, _, _, _, saved) = saved ∙ h.closed
    go (raise x, v) (_, _, _, saved) = saved ∙ h.closed

enqueue-IsDurable : (e : Entry) (m : Mail) (w : World) → IsDurable e w → IsDurable e (enqueue m w).1
unfolding after
enqueue-IsDurable e m w h = after-IsDurable (enqueues m) e w refl h

-- A connection through which no statement goes
record IsStuck (w v : World) : Type 0 where
  rows : v.rows ≡ w.rows
  sequence : v.sequence ≡ w.sequence
  saved : v.saved ≡ w.saved
  down : (n : ℕ) → v.env.fails n ≡ true

enqueue-IsStuck : (w : World) (m : Mail) (v : World) → IsStuck w v → IsStuck w (enqueue m v).1
unfolding enqueue
enqueue-IsStuck w m v h = elim (Bool-cases (is_down (next_tick v))) [
  | inl f ↦ rw f (record { rows = h.rows; sequence = h.sequence; saved = h.saved; down = h.down })
  | inr f ↦ absurd (ground (arith, h.down (v.tick + 1)))
]

-- What one step keeps
record Keeps (e : Entry) (r : Router) : Type 0 where
  shared : IsShared r
  held : IsHeld e r.handler.queue.rows

-- A mail that is received while the worker has no transaction open
receive-IsShared :
    (envelope : Envelope) (r : Router)
    → r.worker.queue.saved ≡ none
    → IsShared r
    → IsShared (receive none envelope r)
receive-IsShared envelope r closed h =
    let after_it = handle_data-Kept Ready enqueue-Ready envelope r.handler (record {
      valid = record { table = h.table; snapshot = rw (h.none_open) tt };
      closed = h.none_open;
    }) in
    record {
      order = h.order;
      same = rw closed refl;
      table = after_it.valid.table;
      none_open = after_it.closed;
    }

receive-Keeps :
    (e : Entry) (saved : Option (List Row)) (envelope : Envelope) (r : Router)
    → r.worker.queue.saved ≡ saved
    → Keeps e r
    → Keeps e (receive saved envelope r)
receive-Keeps e none envelope r closed k = record {
  shared = receive-IsShared envelope r closed k.shared;
  held =
      (handle_data-Kept (IsDurable e) (enqueue-IsDurable e) envelope r.handler
        (record { now = k.held; snapshot = rw (k.shared.none_open) tt })).now;
}
receive-Keeps e (some before) envelope r opened k =
    let h =
      handle_data-Kept (IsStuck r.handler.queue) (enqueue-IsStuck r.handler.queue) envelope
        (locked r.handler)
        (record { rows = refl; sequence = refl; saved = refl; down = λ n. refl }) in
    record {
      shared = record {
        order = k.shared.order;
        same = h.rows ∙ k.shared.same;
        table = rw (h.rows, h.sequence) (k.shared.table);
        none_open = h.saved ∙ k.shared.none_open;
      };
      held = rw (h.rows) (k.held);
    }

works-Keeps : (e : Entry) (r : Router) → Keeps e r → Keeps e (after_event works r)
unfolding after_event
works-Keeps e r k =
    let most = r.worker.config.max_attempts in
    let table = subst (IsTable r.handler.queue.sequence) (k.shared.same) (k.shared.table) in
    let lives =
      tick-Ticks r.worker k.shared.order
        (IsTable-DifferentIds r.handler.queue.sequence (committed r.worker.queue) table) in
    record {
      shared = record {
        order = subst IsOrderBy (sym (tick-Fixed r.worker).1) (k.shared.order);
        same = refl;
        table =
            Lives-IsTable most r.handler.queue.sequence (committed r.worker.queue)
              (committed (tick r.worker).1.queue) lives table;
        none_open = k.shared.none_open;
      };
      held =
          Lives-IsHeld most e (committed r.worker.queue) (committed (tick r.worker).1.queue) lives
            (subst (IsHeld e) (k.shared.same) (k.held));
    }

starts-Keeps : (e : Entry) (r : Router) → Keeps e r → Keeps e (after_event starts r)
unfolding after_event restart
starts-Keeps e r k =
    let w = restart r.worker.queue.env r.worker.queue in
    let closed = requeue_in_flight-saved w in
    let seen : committed (requeue_in_flight w).1 ≡ (requeue_in_flight w).1.rows =
      ap (λ p. restored p (requeue_in_flight w).1.rows) closed in
    record {
      shared = record {
        order =
            subst IsOrderBy (sym (IsSteady-env requeue_in_flight requeue_in_flight-IsSteady w))
              (k.shared.order);
        same = refl;
        table = subst (IsTable r.handler.queue.sequence) (sym seen) (
            requeued-IsTable r.handler.queue.sequence w
              (subst (IsTable r.handler.queue.sequence) (k.shared.same) (k.shared.table)));
        none_open = k.shared.none_open;
      };
      held =
          subst (IsHeld e) (sym seen)
            (requeued-IsHeld e w refl (subst (IsHeld e) (k.shared.same) (k.held)));
    }

after_events-Keeps :
    (e : Entry) (events : List Event) (r : Router) → Keeps e r → Keeps e (after_events events r)
unfolding after_events after_event
after_events-Keeps e [] r k = k
after_events-Keeps e (receives envelope ∷ events) r k =
    after_events-Keeps e events (receive r.worker.queue.saved envelope r)
      (receive-Keeps e r.worker.queue.saved envelope r refl k)
after_events-Keeps e (works ∷ events) r k =
    after_events-Keeps e events (after_event works r) (works-Keeps e r k)
after_events-Keeps e (starts ∷ events) r k =
    after_events-Keeps e events (after_event starts r) (starts-Keeps e r k)

still_there :
    (P : Text → Row → Type 0) (events : List Event) (r : Router)
    → IsShared r
    → (k : Text) → (q : Row) × (find_first (has_key k) r.handler.queue.rows ≡ some q) × P k q
    → IsKept P k r.handler.queue.rows (after_events events r).handler.queue.rows
still_there P events r shared k (q, found, has) =
    let key = has_key-find k r.handler.queue.rows q found in
    (
      q,
      found,
      has,
      (after_events-Keeps (entry_of q) events r (record {
        shared = shared;
        held = (
          q,
          subst (λ x. find_first (has_key x) r.handler.queue.rows ≡ some q) (sym key) found,
          refl,
        );
      })).held,
    )

-- A mail with a Message-ID that was answered "250 OK" is not lost while the receiver and the worker go
-- on together, however the lookup file changes and is reloaded meanwhile. For each recipient that is
-- let through with the hosts that `allowed_domains` returned when its turn came, the answer leaves a
-- row under its key, which was there before and is unchanged, or which holds the content and the
-- sender of the mail, and the address, the data source, the mailbox and the key of one of the
-- recipients; and after any sequence of steps, each the handling of another mail, a round of the
-- worker, whatever raises in it, or a start of the worker's process, the table as the receiver reads
-- it holds all that came in with that row, under the same id. The worker has no transaction open when
-- that mail is received; before it, the two read the same table, in which no id or key stands twice,
-- the receiver has no transaction open, and SQLite's order is one by reception.
pub after_events-IsKept :
    (r : Router) (envelope : Envelope) (c : ℕ) (mid : Text) (events : List Event)
    → IsShared r
    → r.worker.queue.saved ≡ none
    → extract_message_id r.handler.email envelope.content ≡ some (c ∷ mid)
    → (handle_data envelope r.handler).0 ≡ ok accepted_text
    → AreServed c mid envelope r.handler
        (λ k rows.
          IsKept
            (StoodOrNew c mid envelope r.handler r.handler.queue.rows envelope.rcpt_tos)
            k
            rows
            (after_events (receives envelope ∷ events) r).handler.queue.rows)
        (after_event (receives envelope) r).handler.queue.rows
        envelope.rcpt_tos
        r.handler.lookup
unfolding after_events after_event
after_events-IsKept r envelope c mid events shared closed found answered =
    let From = StoodOrNew c mid envelope r.handler r.handler.queue.rows envelope.rcpt_tos in
    subst
      (λ saved.
        AreServed c mid envelope r.handler
          (λ k rows.
            IsKept From k rows (after_events events (receive saved envelope r)).handler.queue.rows)
          (receive saved envelope r).handler.queue.rows envelope.rcpt_tos r.handler.lookup)
      (sym closed)
      (AreServed-map c mid envelope r.handler
        (HasRow c mid envelope r.handler r.handler.queue.rows envelope.rcpt_tos)
        (λ k rows.
          IsKept From k rows (after_events events (receive none envelope r)).handler.queue.rows)
        (receive none envelope r).handler.queue.rows
        (still_there From events (receive none envelope r)
          (receive-IsShared envelope r closed shared))
        envelope.rcpt_tos r.handler.lookup
        (handle_data-serves r.handler envelope c mid found answered))

-- ===== src/Queue/Interleave.antt =====
-- `Queue.enqueue` while other processes use the same file: it is two statements outside of a
-- transaction, and anything may happen between them.
use mail_router.Prelude.{
  ℕ, ◌+◌, ◌≡◌, refl, ap, sym, subst, Bool, true, false, Text, Option, none, some, List, [],
  find_first, text_eq_iff, ◌∷◌, text_eq_refl, inl, inr, Bool-cases, Option-cases, arith,
}
use mail_router.Clock.{isoformat}
use mail_router.Queue.Schema.{Row, has_key}
use mail_router.Queue.Sqlite.{
  World, Action, Result, ok, raise, database, next_tick, is_down, execute, ◌>>=◌,
}
use mail_router.Queue.{
  Mail, utcnow, insert_row, insert_unless, enqueue, enqueued, restored, new_row, with_key,
}
use mail_router.Queue.Table.{find-append_new}
use mail_router.Queue.Enqueue.{stamp}
use mail_router.Queue.Invariant.{Call, run}
use mail_router.Queue.Durable.{
  Entry, entry_of, IsHeld, IsHeldSaved, restored-IsHeld, has_prune, run-IsDurable,
}

-- The calls of other processes, which have connections of their own: of a transaction that they have
-- not committed nothing is seen.
abbrev pub meanwhile : List Call → World → World
meanwhile cs w =
    let v = run cs w in record w { rows = restored v.saved v.rows; sequence = v.sequence }

-- `enqueue` with these calls after its first statement
unfoldable pub enqueue_among : List Call → Mail → Action (ℕ × Bool)
unfolding run
enqueue_among cs m = do
  now ← utcnow
  inserted ← execute (insert_row (isoformat now) m)
  (λ w. enqueued m inserted (meanwhile cs w))

meanwhile-nil : (w : World) → w.saved ≡ none → meanwhile [] w ≡ w
unfolding run
meanwhile-nil w none_open = rw none_open refl

-- After the first statement, by the row that has the key.
abbrev tried : Option Row → Mail → World → World
tried found m w = (insert_unless found (stamp w) m (next_tick (next_tick w))).1

-- Undisturbed, it is `enqueue`.
enqueue_among-nil : (m : Mail) (w : World) → w.saved ≡ none → enqueue_among [] m w ≡ enqueue m w
unfolding enqueue_among enqueue run
enqueue_among-nil m w none_open = elim (Option-cases (with_key m.idempotency_key w)) [
  | inl e ↦ elim (Bool-cases (is_down (next_tick w))) [
    | inl f ↦ rw f refl
    | inr f ↦ rw (f, e, meanwhile-nil (tried none m w) none_open) refl
  ]
  | inr (r, e) ↦ elim (Bool-cases (is_down (next_tick w))) [
    | inl f ↦ rw f refl
    | inr f ↦ rw (f, e) (ap (enqueued m none) (meanwhile-nil (tried (some r) m w) none_open))
  ]
]

meanwhile-IsHeld :
    (cs : List Call) (e : Entry) (w : World)
    → has_prune cs ≡ false
    → w.saved ≡ none
    → IsHeld e w.rows
    → IsHeld e (meanwhile cs w).rows
meanwhile-IsHeld cs e w h none_open held =
    let d =
      run-IsDurable cs e w h
        (record { now = held; snapshot = subst (IsHeldSaved e) (sym none_open) tt }) in
    restored-IsHeld e (run cs w).saved (run cs w).rows d.now d.snapshot

abbrev pub IsTaken : Mail → World → Result (ℕ × Bool) × World → Type 0
IsTaken m w (ok (id, true), v) = IsHeld (id, m) v.rows
IsTaken m w (ok (id, false), v) =
    (r : Row) × (with_key m.idempotency_key w ≡ some r) × (id ≡ r.id) × IsHeld (entry_of r) v.rows
IsTaken m w (raise e, v) = e ≡ database

pub has_key-find :
    (k : Text) (rows : List Row) (r : Row)
    → find_first (has_key k) rows ≡ some r
    → r.idempotency_key ≡ k
has_key-find k [] r h = cc
has_key-find k (q ∷ rows) r h =
    ground (arith, has_key-find k rows r, text_eq_iff q.idempotency_key k)

-- The second statement finds the row that stopped the first.
found_again :
    (m : Mail) (w : World) (r : Row) (v : World)
    → with_key m.idempotency_key w ≡ some r
    → r.idempotency_key ≡ m.idempotency_key
    → IsHeld (entry_of r) v.rows
    → IsTaken m w (enqueued m none v)
found_again m w r v e key (q, found, same) =
    let found' : with_key m.idempotency_key v ≡ some q =
      subst (λ k. find_first (has_key k) v.rows ≡ some q) key found in
    elim (Bool-cases (is_down v)) [
      | inl f ↦ rw f refl
      | inr f ↦ rw (f, found') (r, e, ap (λ (x : Entry). x.0) same, (q, found, same))
    ]

-- Whatever other processes call between the two statements, but for a prune, an `enqueue` that returns
-- has the mail in the table, under the id that it returns: its own mail if it created the row, and
-- else the mail of the row that had the key when it was called. The only exception is the database's.
-- When it is called, no transaction is open.
pub enqueue_among-IsTaken :
    (cs : List Call) (m : Mail) (w : World)
    → w.saved ≡ none
    → has_prune cs ≡ false
    → IsTaken m w (enqueue_among cs m w)
unfolding enqueue_among
enqueue_among-IsTaken cs m w none_open h = elim (Option-cases (with_key m.idempotency_key w)) [
  | inl e ↦ elim (Bool-cases (is_down (next_tick w))) [
    | inl f ↦ rw (f) refl
    | inr f ↦
        rw (f, e)
          (meanwhile-IsHeld cs (w.sequence + 1, m) (tried none m w) h none_open
            (
              new_row (w.sequence + 1) (stamp w) m,
              find-append_new (has_key m.idempotency_key) w.rows _ e
                  (text_eq_refl m.idempotency_key),
              refl,
            ))
  ]
  | inr (r, e) ↦ elim (Bool-cases (is_down (next_tick w))) [
    | inl f ↦ rw (f) refl
    | inr f ↦
        rw (f, e)
          (let key = has_key-find m.idempotency_key w.rows r e in
            found_again m w r (meanwhile cs (tried (some r) m w)) e key (
              meanwhile-IsHeld cs (entry_of r) (tried (some r) m w) h none_open
                (r, subst (λ k. find_first (has_key k) w.rows ≡ some r) (sym key) e, refl)))
  ]
]

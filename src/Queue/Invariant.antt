-- ===== src/Queue/Invariant.antt =====
-- Every method keeps the table's invariant, whatever raises and whenever the process dies.
use mail_router.Prelude.{
  ℕ, ◌+◌, ◌≤◌, ◌≡◌, refl, ◌∙◌, sym, subst, Bool, true, false, Text, Option, none, some, List, [],
  ◌∷◌, map, arith, inl, inr, Bool-cases, if◌then◌else◌,
}
use mail_router.Clock.{DateTime}
use mail_router.Queue.Schema.{in_flight, Row, QueueItem, has_id, has_state}
use mail_router.Queue.Sqlite.{
  Environment, World, Result, ok, raise, next_tick, is_down, then-pure, execute, pure, ◌>>◌,
}
use mail_router.Queue.{
  Mail, enqueue, dequeue_batch, mark_delivered, mark_retry, mark_dead_letter, requeue_in_flight,
  prune_delivered, close, new_row, mark_in_flight, update_where, restored, ids,
}
use mail_router.Queue.Table.{IsTable, map-IsTable, select-IsTable, append-IsTable, IsTable-le}
use mail_router.Queue.Enqueue.{stamp, IsEnqueued, enqueue-IsEnqueued}
use mail_router.Queue.Dequeue.{IsUndone, due_rows}
use mail_router.Queue.Batch.{IsBatch, dequeue_batch-IsBatch}

-- The calls that change the table, and the end of a process, after which another opens the file.
pub data Call : Type 0 where
  enqueues : Mail → Call
  dequeues : ℕ → Call
  delivers : ℕ → Option Text → Call
  retries : ℕ → ℕ → DateTime → Text → Call
  buries : ℕ → Text → Call
  requeues : Call
  prunes : ℕ → Call
  closes : Call
  restarts : Environment → Call

-- A process that ends leaves an open transaction to be rolled back.
unfoldable pub restart : Environment → World → World
restart env w = record {
  env = env;
  rows = restored w.saved w.rows;
  sequence = w.sequence;
  saved = none;
  closed = false;
  tick = 0;
}

unfoldable pub after : Call → World → World
unfolding enqueue dequeue_batch mark_delivered mark_retry mark_dead_letter requeue_in_flight
    prune_delivered close restart
after (enqueues m) w = (enqueue m w).1
after (dequeues limit) w = (dequeue_batch limit w).1
after (delivers id mid) w = (mark_delivered id mid w).1
after (retries id n at e) w = (mark_retry id n at e w).1
after (buries id reason) w = (mark_dead_letter id reason w).1
after requeues w = (requeue_in_flight w).1
after (prunes days) w = (prune_delivered days w).1
after closes w = close w
after (restarts env) w = restart env w

unfoldable pub run : List Call → World → World
run [] w = w
run (c ∷ cs) w = run cs (after c w)

-- The worlds that can come about from an empty table.
pub data Reach : World → Type 0 where
  created : (w : World) → w.rows ≡ [] → w.saved ≡ none → Reach w
  next : (c : Call) (w : World) → Reach w → Reach (after c w)

abbrev pub IsSaved : ℕ → Option (List Row) → Type 0
IsSaved top none = Unit
IsSaved top (some rs) = IsTable top rs

pub record IsValid (w : World) : Type 0 where
  pub table : IsTable w.sequence w.rows
  pub snapshot : IsSaved w.sequence w.saved

restored-IsTable :
    (top : ℕ) (saved : Option (List Row)) (rows : List Row)
    → IsTable top rows
    → IsSaved top saved
    → IsTable top (restored saved rows)
restored-IsTable top none rows t s = t
restored-IsTable top (some before) rows t s = s

IsSaved-le : (m n : ℕ) (s : Option (List Row)) → m ≤ n → IsSaved m s → IsSaved n s
IsSaved-le m n none le h = tt
IsSaved-le m n (some rs) le h = IsTable-le m n rs le h

-- An UPDATE of other columns than the id and the key.
module _ (test : Row → Bool) (change : Row → Row) (id : (r : Row) → (change r).id ≡ r.id)
    (key : (r : Row) → (change r).idempotency_key ≡ r.idempotency_key) where
  pub update-IsValid : (w : World) → IsValid w → IsValid (execute (update_where test change) w).1
  update-IsValid w v = elim (Bool-cases (is_down w)) [
    | inl f ↦ rw f (record { table = v.table; snapshot = v.snapshot })
    | inr f ↦ rw f (record {
      table =
          map-IsTable (λ r. if test r then change r else r) (λ r. ground (arith, id r))
            (λ r. ground (arith, key r)) w.sequence w.rows v.table;
      snapshot = v.snapshot;
    })
  ]

  pub update_done-IsValid :
      (w : World)
      → IsValid w
      → IsValid ((execute (update_where test change) >> pure {A = Unit {0}} tt) w).1
  update_done-IsValid w v =
      let a = execute (update_where test change) w in
      subst IsValid (sym (then-pure a.0 tt a.1)) (update-IsValid w v)

kept-IsValid :
    (w w' : World)
    → w'.rows ≡ w.rows
    → w.sequence ≤ w'.sequence
    → w'.saved ≡ w.saved
    → IsValid w
    → IsValid w'
kept-IsValid w w' rows le saved v = record {
  table =
      subst (IsTable w'.sequence) (sym rows) (IsTable-le w.sequence w'.sequence w.rows le v.table);
  snapshot =
      subst (IsSaved w'.sequence) (sym saved)
        (IsSaved-le w.sequence w'.sequence w.saved le v.snapshot);
}

enqueued-IsValid :
    (m : Mail) (w : World) (a : Result (ℕ × Bool) × World)
    → IsEnqueued m w a
    → IsValid w
    → IsValid a.1
enqueued-IsValid m w (ok (id, true), w') (fresh, new, top, rows, saved) v = record {
  table =
      subst (λ n. IsTable n w'.rows) (sym (top ∙ new))
        (subst (IsTable (w.sequence + 1)) (sym rows)
          (append-IsTable w.sequence w.rows (new_row id (stamp w) m) v.table new fresh));
  snapshot =
      subst (IsSaved w'.sequence) (sym saved)
        (IsSaved-le w.sequence w'.sequence w.saved (omega arith) v.snapshot);
}
enqueued-IsValid m w (ok (id, false), w') (r, found, _, rows, le, saved) v =
    kept-IsValid w w' rows le saved v
enqueued-IsValid m w (raise e, w') (_, rows, le, saved) v = kept-IsValid w w' rows le saved v

mark-IsTable :
    (taken : List ℕ) (top : ℕ) (rs : List Row)
    → IsTable top rs
    → IsTable top (map (mark_in_flight taken) rs)
mark-IsTable taken top rs =
    map-IsTable (mark_in_flight taken) (λ r. ground arith) (λ r. ground arith) top rs

undone-IsValid : (w w' : World) → IsUndone w w' → IsValid w → IsValid w'
undone-IsValid w w' (seq, inl (rows, saved)) v = kept-IsValid w w' rows (omega arith) saved v
undone-IsValid w w' (seq, inr (_, saved, (taken, rows))) v = record {
  table =
      subst (λ n. IsTable n w'.rows) (sym seq)
        (subst (IsTable w.sequence) (sym rows) (mark-IsTable taken w.sequence w.rows v.table));
  snapshot =
      subst (λ n. IsSaved n w'.saved) (sym seq) (subst (IsSaved w.sequence) (sym saved) v.table);
}

batch-IsValid :
    (limit : ℕ) (w : World) (a : Result (List QueueItem) × World)
    → IsBatch limit w a
    → IsValid w
    → IsValid a.1
batch-IsValid limit w (raise e, w') (_, undone) v = undone-IsValid w w' undone v
batch-IsValid limit w (ok items, w') (_, rows, seq, _, saved) v = record {
  table =
      subst (λ n. IsTable n w'.rows) (sym seq)
        (subst (IsTable w.sequence) (sym rows)
          (mark-IsTable (ids (due_rows (stamp w) limit w)) w.sequence w.rows v.table));
  snapshot = subst (IsSaved w'.sequence) (sym saved) tt;
}

prune-IsValid : (days : ℕ) (w : World) → IsValid w → IsValid (prune_delivered days w).1
unfolding prune_delivered
prune-IsValid days w v = elim (Bool-cases (is_down (next_tick w))) [
  | inl f ↦ rw f (record { table = v.table; snapshot = v.snapshot })
  | inr f ↦
      rw f (record { table = select-IsTable _ w.sequence w.rows v.table; snapshot = v.snapshot })
]

reopen-IsValid :
    (w w' : World)
    → w'.rows ≡ restored w.saved w.rows
    → w'.sequence ≡ w.sequence
    → w'.saved ≡ none
    → IsValid w
    → IsValid w'
reopen-IsValid w w' rows seq saved v = record {
  table =
      subst (λ n. IsTable n w'.rows) (sym seq)
        (subst (IsTable w.sequence) (sym rows)
          (restored-IsTable w.sequence w.saved w.rows v.table v.snapshot));
  snapshot = subst (IsSaved w'.sequence) (sym saved) tt;
}

ticked-IsValid : (w : World) → IsValid w → IsValid (next_tick w)
ticked-IsValid w v = record { table = v.table; snapshot = v.snapshot }

-- One call.
pub after-IsValid : (c : Call) (w : World) → IsValid w → IsValid (after c w)
unfolding after mark_delivered mark_retry mark_dead_letter requeue_in_flight close restart
after-IsValid (enqueues m) w v = enqueued-IsValid m w (enqueue m w) (enqueue-IsEnqueued m w) v
after-IsValid (dequeues limit) w v =
    batch-IsValid limit w (dequeue_batch limit w) (dequeue_batch-IsBatch limit w) v
after-IsValid (delivers id mid) w v =
    update_done-IsValid (has_id id) _ (λ r. refl) (λ r. refl) (next_tick w) (ticked-IsValid w v)
after-IsValid (retries id n at e) w v =
    update_done-IsValid (has_id id) _ (λ r. refl) (λ r. refl) w v
after-IsValid (buries id reason) w v = update_done-IsValid (has_id id) _ (λ r. refl) (λ r. refl) w v
after-IsValid requeues w v = update-IsValid (has_state in_flight) _ (λ r. refl) (λ r. refl) w v
after-IsValid (prunes days) w v = prune-IsValid days w v
after-IsValid closes w v = reopen-IsValid w (close w) refl refl refl v
after-IsValid (restarts env) w v = reopen-IsValid w (restart env w) refl refl refl v

-- Every world that comes about has a table in which no id and no idempotency key stands twice, and
-- so has what an open transaction goes back to.
pub Reach-IsValid : {w : World} → Reach w → IsValid w
unfolding after
Reach-IsValid (created w empty closed) = record {
  table = subst (IsTable w.sequence) (sym empty) tt;
  snapshot = subst (IsSaved w.sequence) (sym closed) tt;
}
Reach-IsValid (next c w r) = after-IsValid c w (Reach-IsValid r)

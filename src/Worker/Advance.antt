-- ===== src/Worker/Advance.antt =====
-- The processing of a batch against the life of a mail: each row of an item moves on.
use mail_router.Prelude.{
  ℕ, ◌+◌, ◌≡◌, ◌≢◌, refl, ◌∙◌, ap, sym, subst, List, [], ◌∷◌, All, All-both, All-map, Bool-cases,
  inl, inr, ==_iff,
}
use mail_router.Exec.{Result, ok, raise, continue}
use mail_router.Queue.Schema.{in_flight, Row, QueueItem, has_id}
use mail_router.Queue.Updates.{at_id}
use mail_router.Worker.{Worker, WorkerConfig, process, process_all}
use mail_router.Worker.Process.{
  Change, delivers, retries, refused, exhausted, unknown, unparsed, IsProcessed,
  process-IsProcessed,
}
use mail_router.Worker.Keeps.{Keeps, process-Keeps}
use mail_router.Worker.Lifecycle.{
  here, next, arrive, again, bury, IsLater, Lives, Lives-refl, Lives-trans,
}
use mail_router.Worker.Ready.{Distinct, IsReady}

-- The row of the item moves on, and keeps what came in with the mail.
Change-IsLater :
    (s : Worker) (item : QueueItem) (c : Row → Row) (r : Row)
    → Change s item c
    → r.state ≡ in_flight
    → r.attempt_count ≡ item.attempt_count
    → IsLater s.config.max_attempts r (c r)
Change-IsLater s item c r (delivers _ _ _ at mid _ e) sent n =
    rw e (record { id = refl; mail = refl; steps = rw sent (next here arrive) })
Change-IsLater s item c r (retries _ _ _ _ left _ _ e) sent n = rw e (record {
  id = refl;
  mail = refl;
  steps = rw sent (next here (again (ap (λ (k : ℕ). k + 1) (sym n)) left));
})
Change-IsLater s item c r (refused _ _ _ _ e) sent n =
    rw e (record { id = refl; mail = refl; steps = rw sent (next here bury) })
Change-IsLater s item c r (exhausted _ _ _ _ _ e) sent n =
    rw e (record { id = refl; mail = refl; steps = rw sent (next here bury) })
Change-IsLater s item c r (unknown _ e) sent n =
    rw e (record { id = refl; mail = refl; steps = rw sent (next here bury) })
Change-IsLater s item c r (unparsed _ _ _ _ e) sent n =
    rw e (record { id = refl; mail = refl; steps = rw sent (next here bury) })

at_id-Lives :
    (s : Worker) (item : QueueItem) (c : Row → Row) (rs : List Row)
    → Change s item c
    → IsReady rs item
    → Lives s.config.max_attempts rs (at_id item.id c rs)
at_id-Lives s item c [] change ready = tt
at_id-Lives s item c (r ∷ rs) change (sent, ready) = (
  elim (Bool-cases (has_id item.id r)) [
    | inl e ↦ let (state, n) = sent e in rw e (Change-IsLater s item c r change state n)
    | inr e ↦ rw e (record { id = refl; mail = refl; steps = here })
  ],
  at_id-Lives s item c rs change ready,
)

-- Items of other ids stay ready.
at_id-IsReady :
    (s : Worker) (item j : QueueItem) (c : Row → Row) (rs : List Row)
    → Change s item c
    → j.id ≢ item.id
    → IsReady rs item
    → IsReady rs j
    → IsReady (at_id item.id c rs) j
at_id-IsReady s item j c [] change other mine yours = tt
at_id-IsReady s item j c (r ∷ rs) change other (sent, mine) (sent', yours) = (
  elim (Bool-cases (has_id item.id r)) [
    | inl e ↦
        let (state, n) = sent e in
        rw e (λ h. absurd (
          other (
            sym ((==_iff (c r).id j.id).0 h)
            ∙ (Change-IsLater s item c r change state n).id
            ∙ (==_iff r.id item.id).0 e)))
    | inr e ↦ rw e sent'
  ],
  at_id-IsReady s item j c rs change other mine yours,
)

abbrev pub bound_same :
    (s t : Worker) → t.config ≡ s.config → t.config.max_attempts ≡ s.config.max_attempts
bound_same s t = ap (λ (c : WorkerConfig). c.max_attempts)

-- The processing of a batch whose items are ready moves their rows on, whatever raises.
pub process_all-Lives :
    (items : List QueueItem) (s : Worker)
    → Distinct items
    → All (IsReady s.queue.rows) items
    → Lives s.config.max_attempts s.queue.rows (process_all items s).1.queue.rows
unfolding process_all
process_all-Lives [] s different ready = Lives-refl s.config.max_attempts s.queue.rows
process_all-Lives (item ∷ items) s (others, different) (mine, ready) =
    rest (process_all-Lives items) (process item s) (process-Keeps item s)
      (process-IsProcessed item s)
  where
    rest :
        ((v : Worker)
          → Distinct items
          → All (IsReady v.queue.rows) items
          → Lives v.config.max_attempts v.queue.rows (process_all items v).1.queue.rows)
        → (a : Result Unit × Worker) → Keeps s a
        → IsProcessed s item a
        → Lives s.config.max_attempts s.queue.rows
            (continue a.0 (λ _. process_all items) a.1).1.queue.rows
    rest ih (raise e, v) keeps rows =
        subst (Lives s.config.max_attempts s.queue.rows) (sym rows)
          (Lives-refl s.config.max_attempts s.queue.rows)
    rest ih (ok u, v) (config, _, _) (c, change, rows) =
        let lives = ih v different (
          subst (λ l. All (IsReady l) items) (sym rows)
            (All-map items (λ j p. at_id-IsReady s item j c s.queue.rows change p.0 mine p.1)
              (All-both (λ x. x.id ≢ item.id) (IsReady s.queue.rows) items others ready))) in
        Lives-trans s.config.max_attempts s.queue.rows v.queue.rows
          (process_all items v).1.queue.rows
          (subst (Lives s.config.max_attempts s.queue.rows) (sym rows)
            (at_id-Lives s item c s.queue.rows change mine))
          (subst (λ n. Lives n v.queue.rows (process_all items v).1.queue.rows)
            (bound_same s v config) lives)

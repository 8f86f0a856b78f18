-- ===== src/Worker/Emptied.antt =====
-- A run of the worker that meets no failure empties the queue.
use mail_router.Prelude.{
  ℕ, zero, suc, ◌+◌, ◌-◌, ◌*◌, ◌≤◌, ◌≡◌, refl, ◌∙◌, ap, sym, subst, false, none, some, List, [],
  ◌∷◌, map, arith, All, length,
}
use mail_router.Exec.{Result, ok}
use mail_router.Queue
use mail_router.Queue.{dequeue_batch, ids, mark_in_flight}
use mail_router.Queue.Schema.{pending, in_flight, delivered, dead_letter, Row, QueueItem}
use mail_router.Queue.Sqlite.{World}
use mail_router.Queue.Enqueue.{stamp}
use mail_router.Queue.Delivery.{IsOrderBy, item_ids, ids-AreCopies, length-AreCopies}
use mail_router.Queue.Batch.{IsBatch}
use mail_router.Queue.Up.{IsUp}
use mail_router.Queue.Marked.{mark-Moves, mark_id, mark-IsOld}
use mail_router.Queue.Counts.{
  IsOld, IsKeyed, DifferentIds, IsIn, Moves, Moves-trans, Moves-through, AreDifferent,
  map-DifferentIds,
}
use mail_router.Parser.{EmailPackage}
use mail_router.Lookup.{Lookup}
use mail_router.Worker.{Worker, process_all, tick, ticks, rest_of_tick}
use mail_router.Worker.Ready.{due-DifferentIds}
use mail_router.Worker.Tick.{committed, maybe_alert_queue_size-SameQueue, tick-Ticks}
use mail_router.Worker.Keeps.{process_all-Keeps}
use mail_router.Worker.Run.{tick-Fixed, Lives-DifferentIds}
use mail_router.Worker.Deliver.{AcceptsAll, AreKnown, IsThere, process_all-Delivers}
use mail_router.Worker.Round.{
  tick-IsBatched, Setting, due, setting_of, mails_in-AreCopies, batch-IsThere,
  maybe_alert_queue_size-IsQuiet,
}
use mail_router.Worker.Drain.{AreSound, map-AreSound, process_all-Drains}
use mail_router.Worker.Calm.{IsCalm, waiting, length-due, due-AreKnown, due-IsIn, ids-AreDifferent}

-- The rows of a batch that nothing fails go from waiting to delivered.
record IsRound (s : Worker) (a : Result Unit × Worker) : Type 0 where
  returns : a.0 ≡ ok tt
  posts : a.1.posts ≡ s.posts + length (due s)
  moves : Moves pending delivered (length (due s)) s.queue.rows a.1.queue.rows
  sound : AreSound s.email s.lookup a.1.queue.rows
  old : IsOld dead_letter s.queue.rows a.1.queue.rows
  up : IsUp a.1.queue
  closed : a.1.queue.saved ≡ none
  site : setting_of a.1 ≡ setting_of s

marked-AreSound :
    (email : EmailPackage) (l : Lookup) (taken : List ℕ) (rows : List Row)
    → AreSound email l rows
    → AreSound email l (map (mark_in_flight taken) rows)
marked-AreSound email l taken = map-AreSound email l (mark_in_flight taken) (λ r h. ground arith)

length-ids : (rows : List Row) → length (ids rows) ≡ length rows
length-ids [] = refl
length-ids (r ∷ rows) = ap suc (length-ids rows)

after_batch :
    (s : Worker)
    → IsCalm s
    → (items : List QueueItem) (w : World) → IsUp w
    → IsBatch s.config.batch_size s.queue (ok items, w)
    → IsRound s (rest_of_tick (some items) (record s { queue = w }))
after_batch s calm items w up (copies, rows, _, _, closed) =
    let t = record s { queue = w } in
    let taken = ids (due s) in
    let same = ids-AreCopies items (due s) copies in
    let long = length-AreCopies items (due s) copies in
    let known =
      subst (λ l. AreKnown s.email l s.lookup) (sym (mails_in-AreCopies items (due s) copies))
        (due-AreKnown s calm) in
    let apart =
      ids-AreDifferent (due s)
        (due-DifferentIds (stamp s.queue) s.config.batch_size s.queue calm.order calm.different) in
    let (marks, flying) = mark-Moves taken s.queue.rows calm.different apart (due-IsIn s calm) in
    let d = process_all-Delivers items t known calm.taking up (
      subst (λ l. All (λ (item : QueueItem). IsThere l item.id) items) (sym rows)
        (batch-IsThere s.config.batch_size s.queue items calm.order copies)) in
    let e =
      process_all-Drains items t known calm.taking up calm.static
        (subst DifferentIds (sym rows)
          (map-DifferentIds (mark_in_flight taken) (mark_id taken) s.queue.rows calm.different))
        (subst AreDifferent (sym same) apart)
        (subst (λ l. All (IsIn in_flight l) (item_ids items)) (sym rows)
          (subst (λ l. All (IsIn in_flight (map (mark_in_flight taken) s.queue.rows)) l) (sym same)
            flying)) in
    let u = (process_all items t).1 in
    let quiet = maybe_alert_queue_size-IsQuiet u d.up in
    let last = maybe_alert_queue_size-SameQueue u in
    rw (d.returns) (record {
      returns = quiet.returns;
      posts = quiet.posts ∙ d.sent ∙ ap (λ n. s.posts + n) long;
      moves = subst (Moves pending delivered (length (due s)) s.queue.rows) (sym last.0) (
          Moves-through pending in_flight delivered (length (due s)) s.queue.rows w.rows
            u.queue.rows
            (subst (Moves pending in_flight (length (due s)) s.queue.rows) (sym rows) (
              subst
                (λ n.
                  Moves pending in_flight n s.queue.rows (map (mark_in_flight taken) s.queue.rows))
                (length-ids (due s)) marks))
            (subst (λ n. Moves in_flight delivered n w.rows u.queue.rows) long e.moves));
      sound = subst (AreSound s.email s.lookup) (sym last.0) (
          e.sound (
            subst (AreSound s.email s.lookup) (sym rows)
              (marked-AreSound s.email s.lookup taken s.queue.rows calm.sound)));
      old = λ k h. mark-IsOld taken s.queue.rows k (
          subst (λ l. IsKeyed dead_letter l k) rows
            (e.old k (subst (λ l. IsKeyed dead_letter l k) last.0 h)));
      up = quiet.up;
      closed = last.1 ∙ (process_all-Keeps items t).1 ∙ closed;
      site = quiet.site ∙ e.site;
    })

tick-IsRound : (s : Worker) → IsCalm s → IsRound s (tick s)
tick-IsRound s calm =
    let b = tick-IsBatched s calm.up calm.closed in
    subst (IsRound s) (sym b.runs) (after_batch s calm b.items b.world b.up b.batch)

committed-rows : (w : World) → w.saved ≡ none → committed w ≡ w.rows
committed-rows w closed = ap (λ p. Queue.restored p w.rows) closed

-- The next round finds nothing in the way either.
tick-IsCalm : (s : Worker) → IsCalm s → IsRound s (tick s) → IsCalm (tick s).1
tick-IsCalm s calm round = record {
  order = subst IsOrderBy (sym (tick-Fixed s).1) calm.order;
  up = round.up;
  closed = round.closed;
  different = subst DifferentIds (committed-rows (tick s).1.queue round.closed) (
      Lives-DifferentIds s.config.max_attempts (committed s.queue) (committed (tick s).1.queue)
        (tick-Ticks s calm.order different) different);
  none_in_flight = omega (arith, round.moves in_flight, calm.none_in_flight);
  sound =
      subst (λ (x : Setting). AreSound x.3 x.1 (tick s).1.queue.rows) (sym round.site) round.sound;
  static = subst (λ (x : Setting). x.1.table.auto_reload ≡ false) (sym round.site) calm.static;
  taking = subst (λ (x : Setting). AcceptsAll x.2 x.4) (sym round.site) calm.taking;
}
  where
    different : DifferentIds (committed s.queue)
    different = subst DifferentIds (sym (committed-rows s.queue calm.closed)) calm.different

-- Every row that waits is delivered, by one POST each.
pub record IsEmptied (s : Worker) (a : Result Unit × Worker) : Type 0 where
  pub returns : a.0 ≡ ok tt
  pub posts : a.1.posts ≡ s.posts + waiting s
  pub moves : Moves pending delivered (waiting s) s.queue.rows a.1.queue.rows
  pub old : IsOld dead_letter s.queue.rows a.1.queue.rows
  pub closed : a.1.queue.saved ≡ none

pub ticks-IsEmptied :
    (n : ℕ) (s : Worker) → IsCalm s → waiting s ≤ n * s.config.batch_size → IsEmptied s (ticks n s)
unfolding ticks
ticks-IsEmptied zero s calm enough =
    let none_left : waiting s ≡ 0 = omega arith in
    record {
      returns = refl;
      posts = omega arith;
      moves = λ x. ground arith;
      old = λ k h. h;
      closed = calm.closed;
    }
ticks-IsEmptied (suc n) s calm enough =
    let round = tick-IsRound s calm in
    let v = (tick s).1 in
    let left : waiting v ≡ waiting s - s.config.batch_size =
      omega (arith, round.moves pending, length-due s calm) in
    let size = ap (λ (x : Setting). x.0.batch_size) round.site in
    let later =
      ticks-IsEmptied n v (tick-IsCalm s calm round)
        (subst (λ b. waiting v ≤ n * b) (sym size) (grind (arith, left))) in
    let sum : waiting s ≡ length (due s) + waiting v = omega (arith, left, length-due s calm) in
    rw (round.returns) (record {
      returns = later.returns;
      posts = omega (arith, later.posts, round.posts, sum);
      moves =
          Moves-trans pending delivered (length (due s)) (waiting v) (waiting s) s.queue.rows
            v.queue.rows (ticks n v).1.queue.rows sum round.moves later.moves;
      old = λ k h. round.old k (later.old k h);
      closed = later.closed;
    })

-- ===== src/Worker/Calm.antt =====
-- A run of the worker that meets no failure, round by round.
use mathlib.Core.Nat
use mathlib.Core.List
use mathlib.Core.Bool.{Bool-set}
use mathlib.Core.Logic.Or
use mathlib.Core.List.{
  Mem, not-mem-nil, eq-or-mem_of_mem-cons, Pairwise-cons, mem-cons_self, mem-cons_of_mem,
}
use mathlib.Core.List.Perm
use mail_router.Prelude.{
  ℕ, zero, suc, ◌+◌, ◌-◌, ◌≡◌, ◌≢◌, refl, ◌∙◌, ap, sym, subst, true, false, Text, none, some, List,
  [], ◌∷◌, arith, All, length, count, select, take, find_first, Bool-cases, Option-cases, inl, inr,
}
use mail_router.Queue.{ids}
use mail_router.Queue.Schema.{pending, in_flight, Row, has_id, has_state, can_take}
use mail_router.Queue.Enqueue.{stamp}
use mail_router.Queue.Delivery.{IsOrderBy, mem-due}
use mail_router.Queue.Up.{IsUp}
use mail_router.Worker.{Worker}
use mail_router.Queue.Counts.{DifferentIds, IsIn, AreDifferent, find-id}
use mail_router.Worker.Ready.{find-none, same_column, State-set}
use mail_router.Worker.Round.{due, mails_in}
use mail_router.Worker.Drain.{is_sound, AreSound, is_sound-due, is_sound-IsKnown, resolve-same}
use mail_router.Worker.Deliver.{IsKnown, AreKnown, AcceptsAll}
use mail_router.Parser.{EmailPackage}
use mail_router.Lookup.{Lookup}

same_length :
    (rows rows' : List Row) → List.length rows ≡ List.length rows' → length rows ≡ length rows'
same_length [] [] h = refl
same_length [] (q ∷ qs) h = cc
same_length (r ∷ rs) [] h = cc
same_length (r ∷ rs) (q ∷ qs) h = ap suc (same_length rs qs (Nat.suc_inj h))

length-take_rest :
    (n : ℕ) (rows : List Row) → length (take n rows) + (length rows - n) ≡ length rows
length-take_rest zero rows = omega arith
length-take_rest (suc n) [] = omega arith
length-take_rest (suc n) (r ∷ rows) = omega (arith, length-take_rest n rows)

find-Mem : (i : ℕ) (rows : List Row) (r : Row) → find_first (has_id i) rows ≡ some r → Mem r rows
find-Mem i [] r h = cc
find-Mem i (q ∷ rows) r h = elim (Bool-cases (has_id i q)) [
  | inl e ↦ subst (λ x. Mem x (q ∷ rows)) (ground arith) mem-cons_self
  | inr e ↦ mem-cons_of_mem q (find-Mem i rows r (rw e at h))
]

-- A row of a table with different ids is the one that its id finds.
Mem-IsIn : (rows : List Row) (r : Row) → DifferentIds rows → Mem r rows → IsIn r.state rows r.id
Mem-IsIn rows r different m = elim (Option-cases (find_first (has_id r.id) rows)) [
  | inl missing ↦ absurd (find-none r.id rows {a = r} missing m refl)
  | inr (q, found) ↦ (
    q,
    found,
    same_column (λ (x : Row). x.state) State-set rows {a = q} {b = r} different
        (find-Mem r.id rows q found) m (find-id r.id rows q found),
  )
]

All-ids_of_Mem :
    (P : ℕ → Type 0) (rows : List Row) → ((r : Row) → Mem r rows → P r.id) → All P (ids rows)
All-ids_of_Mem P [] h = tt
All-ids_of_Mem P (r ∷ rows) h =
    (h r mem-cons_self, All-ids_of_Mem P rows (λ q m. h q (mem-cons_of_mem r m)))

pub ids-AreDifferent : (rows : List Row) → DifferentIds rows → AreDifferent (ids rows)
ids-AreDifferent [] h = tt
ids-AreDifferent (r ∷ rows) h =
    let (first, rest) = Pairwise-cons.0 h in
    (All-ids_of_Mem (λ j. j ≢ r.id) rows (λ q m e. first q m (sym e)), ids-AreDifferent rows rest)

mem-AreSound :
    (email : EmailPackage) (l : Lookup) (rows : List Row) {r : Row}
    → AreSound email l rows
    → Mem r rows
    → is_sound email l r ≡ true
mem-AreSound email l [] h m = absurd (not-mem-nil m)
mem-AreSound email l (q ∷ rows) {r} (h, hs) m =
    Or.elim (Bool-set _ _) (eq-or-mem_of_mem-cons m) (λ same. rw same h)
      (λ rest. mem-AreSound email l rows {r = r} hs rest)

mails_in-AreKnown :
    (email : EmailPackage) (l : Lookup) (rows : List Row)
    → l.table.auto_reload ≡ false
    → ((r : Row) → Mem r rows → IsKnown email l r.ds_id r.raw_eml)
    → AreKnown email (mails_in rows) l
mails_in-AreKnown email l [] static h = tt
mails_in-AreKnown email l (r ∷ rows) static h = (
  h r mem-cons_self,
  rw (resolve-same r.ds_id l static)
      (mails_in-AreKnown email l rows static (λ q m. h q (mem-cons_of_mem r m))),
)

select-waiting :
    (email : EmailPackage) (l : Lookup) (now : Text) (rows : List Row)
    → AreSound email l rows
    → length (select (can_take now) rows) ≡ count (has_state pending) rows
select-waiting email l now [] h = refl
select-waiting email l now (r ∷ rows) (h, hs) =
    rw (is_sound-due email l now r h) (ground (arith, select-waiting email l now rows hs))

-- Between two rounds, nothing is in the way.
pub record IsCalm (s : Worker) : Type 0 where
  pub order : IsOrderBy s.queue.env
  pub up : IsUp s.queue
  pub closed : s.queue.saved ≡ none
  pub different : DifferentIds s.queue.rows
  pub none_in_flight : count (has_state in_flight) s.queue.rows ≡ 0
  pub sound : AreSound s.email s.lookup s.queue.rows
  pub static : s.lookup.table.auto_reload ≡ false
  pub taking : AcceptsAll s.python s.post

abbrev pub waiting : Worker → ℕ
waiting s = count (has_state pending) s.queue.rows

pub length-due :
    (s : Worker) → IsCalm s → length (due s) + (waiting s - s.config.batch_size) ≡ waiting s
length-due s calm =
    let rows = select (can_take (stamp s.queue)) s.queue.rows in
    let same =
      same_length (s.queue.env.order_by_received rows) rows
        (Perm.length-eq (calm.order.perm rows)) in
    let all = select-waiting s.email s.lookup (stamp s.queue) s.queue.rows calm.sound in
    subst (λ n. length (due s) + (n - s.config.batch_size) ≡ n) (same ∙ all)
      (length-take_rest s.config.batch_size (s.queue.env.order_by_received rows))

mem-waits :
    (s : Worker) → IsCalm s → (r : Row) → Mem r (due s) → Mem r s.queue.rows × (r.state ≡ pending)
mem-waits s calm r m =
    let (inside, takes) = mem-due (stamp s.queue) s.config.batch_size s.queue calm.order m in
    (inside, ground arith)

pub due-AreKnown : (s : Worker) → IsCalm s → AreKnown s.email (mails_in (due s)) s.lookup
due-AreKnown s calm = mails_in-AreKnown s.email s.lookup (due s) calm.static (λ r m.
    let (inside, waits) = mem-waits s calm r m in
    is_sound-IsKnown s.email s.lookup r
      (mem-AreSound s.email s.lookup s.queue.rows {r = r} calm.sound inside) (rw waits refl))

pub due-IsIn : (s : Worker) → IsCalm s → All (IsIn pending s.queue.rows) (ids (due s))
due-IsIn s calm = All-ids_of_Mem (IsIn pending s.queue.rows) (due s) (λ r m.
    let (inside, waits) = mem-waits s calm r m in
    subst (λ x. IsIn x s.queue.rows r.id) waits (Mem-IsIn s.queue.rows r calm.different inside))

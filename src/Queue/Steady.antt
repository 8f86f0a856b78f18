-- ===== src/Queue/Steady.antt =====
-- No method changes the surroundings of the connection.
use mail_router.Prelude.{
  ℕ, ◌≡◌, refl, ◌∙◌, ap, ap₂, Bool, Text, Option, none, some, List, [], ◌∷◌, inl, inr, Bool-cases,
}
use mail_router.Clock.{DateTime}
use mail_router.Queue.Schema.{Row, QueueItem}
use mail_router.Queue.Sqlite.{
  Environment, World, Action, Error, Result, ok, raise, next_tick, is_down, execute, raises,
  continue, ◌>>=◌, ◌>>◌, handle, catch,
}
use mail_router.Queue.Enqueue.{stamp}
use mail_router.Queue.Items.{IsRead, rows_to_items-IsRead}
use mail_router.Queue.{
  dequeue_rows, dequeue_batch, rows_to_items, begin_immediate, begin_unless, take_rows, commit,
  rollback, select_due, mark_delivered, mark_retry, mark_dead_letter, requeue_in_flight, stats,
}

abbrev pub surroundings : World → Environment × Bool
surroundings w = (w.env, w.closed)

abbrev pub IsSteady : {A : Type 0} → Action A → Type 0
IsSteady f = (w : World) → surroundings (f w).1 ≡ surroundings w

pub IsSteady-env : {A : Type 0} (f : Action A) → IsSteady f → (w : World) → (f w).1.env ≡ w.env
IsSteady-env f steady w = ap (λ (x : Environment × Bool). x.0) (steady w)

pub IsSteady-closed :
    {A : Type 0} (f : Action A) → IsSteady f → (w : World) → (f w).1.closed ≡ w.closed
IsSteady-closed f steady w = ap (λ (x : Environment × Bool). x.1) (steady w)

execute-IsSteady :
    {A : Type 0} (statement : World → A × World)
    → ((w : World) → surroundings (statement w).1 ≡ surroundings w)
    → IsSteady (execute statement)
execute-IsSteady statement h w = elim (Bool-cases (is_down w)) [
  | inl f ↦ rw f refl
  | inr f ↦ rw f (h (next_tick w))
]

bind-IsSteady :
    {A B : Type 0} (f : Action A) (g : A → Action B)
    → IsSteady f
    → ((a : A) → IsSteady (g a))
    → IsSteady (f >>= g)
bind-IsSteady {A = A} f g hf hg w = go (f w) (hf w)
  where
    go :
        (a : Result A × World)
        → surroundings a.1 ≡ surroundings w
        → surroundings (continue a.0 g a.1).1 ≡ surroundings w
    go (ok a, v) e = hg a v ∙ e
    go (raise x, v) e = e

catch-IsSteady :
    {A : Type 0} (f : Action A) (g : Error → Action A)
    → IsSteady f
    → ((e : Error) → IsSteady (g e))
    → IsSteady (catch f g)
catch-IsSteady {A = A} f g hf hg w = go (f w) (hf w)
  where
    go :
        (a : Result A × World)
        → surroundings a.1 ≡ surroundings w
        → surroundings (handle a.0 g a.1).1 ≡ surroundings w
    go (ok a, v) e = e
    go (raise x, v) e = hg x v ∙ e

begin_immediate-IsSteady : IsSteady begin_immediate
begin_immediate-IsSteady w = go w.saved
  where
    go : (saved : Option (List Row)) → surroundings (begin_unless saved w).1 ≡ surroundings w
    go none = execute-IsSteady (λ v. (tt, record v { saved = some v.rows })) (λ v. refl) w
    go (some rows) = refl

take_rows-IsSteady : (rows : List Row) → IsSteady (take_rows rows)
take_rows-IsSteady [] = bind-IsSteady commit _ (execute-IsSteady _ (λ v. refl)) (λ _ v. refl)
take_rows-IsSteady (r ∷ rs) =
    bind-IsSteady (execute _) _ (execute-IsSteady _ (λ v. refl))
      (λ _. bind-IsSteady commit _ (execute-IsSteady _ (λ v. refl)) (λ _ v. refl))

dequeue_rows-IsSteady : (now : Text) (limit : ℕ) → IsSteady (dequeue_rows now limit)
unfolding dequeue_rows
dequeue_rows-IsSteady now limit = bind-IsSteady begin_immediate _ begin_immediate-IsSteady (λ _.
    catch-IsSteady (execute (select_due now limit) >>= take_rows) (λ e. rollback >> raises e)
      (bind-IsSteady (execute (select_due now limit)) take_rows (execute-IsSteady _ (λ v. refl))
        take_rows-IsSteady)
      (λ e. bind-IsSteady rollback _ (execute-IsSteady _ (λ v. refl)) (λ _ v. refl)))

rows_to_items-IsSteady : (rows : List Row) → IsSteady (rows_to_items rows)
rows_to_items-IsSteady rows w = go (rows_to_items rows w) (rows_to_items-IsRead rows w)
  where
    go : (a : Result (List QueueItem) × World) → IsRead rows w a → surroundings a.1 ≡ surroundings w
    go (ok items, v) (_, same) = ap₂ (λ (e : Environment) (b : Bool). (e, b)) same.env same.closed
    go (raise e, v) h = absurd h

pub dequeue_batch-IsSteady : (limit : ℕ) → IsSteady (dequeue_batch limit)
unfolding dequeue_batch
dequeue_batch-IsSteady limit w =
    bind-IsSteady (dequeue_rows (stamp w) limit) rows_to_items
      (dequeue_rows-IsSteady (stamp w) limit) rows_to_items-IsSteady (next_tick w)

pub mark_delivered-IsSteady : (id : ℕ) (mid : Option Text) → IsSteady (mark_delivered id mid)
unfolding mark_delivered
mark_delivered-IsSteady id mid w = elim (Bool-cases (is_down (next_tick w))) [
  | inl f ↦ rw f refl
  | inr f ↦ rw f refl
]

pub mark_retry-IsSteady : (id n : ℕ) (at : DateTime) (e : Text) → IsSteady (mark_retry id n at e)
unfolding mark_retry
mark_retry-IsSteady id n at e =
    bind-IsSteady (execute _) _ (execute-IsSteady _ (λ v. refl)) (λ _ v. refl)

pub mark_dead_letter-IsSteady : (id : ℕ) (reason : Text) → IsSteady (mark_dead_letter id reason)
unfolding mark_dead_letter
mark_dead_letter-IsSteady id reason =
    bind-IsSteady (execute _) _ (execute-IsSteady _ (λ v. refl)) (λ _ v. refl)

pub requeue_in_flight-IsSteady : IsSteady requeue_in_flight
unfolding requeue_in_flight
requeue_in_flight-IsSteady = execute-IsSteady _ (λ v. refl)

pub stats-IsSteady : IsSteady stats
unfolding stats
stats-IsSteady = execute-IsSteady _ (λ v. refl)

-- ===== src/Queue/Updates.antt =====
-- The three methods that end an attempt write to the rows with the item's id, or raise and write
-- nothing.
use mail_router.Prelude.{
  ℕ, ◌≡◌, refl, Text, Option, none, some, List, [], map, inl, inr, Bool-cases, if◌then◌else◌,
}
use mail_router.Clock.{DateTime, isoformat, to_naive}
use mail_router.Queue.Schema.{pending, delivered, dead_letter, Row, has_id}
use mail_router.Queue.Sqlite.{World, Result, ok, raise, is_down, next_tick}
use mail_router.Queue.{mark_delivered, mark_retry, mark_dead_letter, requeue_in_flight, stats}

abbrev pub delivered_row : Text → Option Text → Row → Row
delivered_row at mid r = record r {
  state = delivered;
  delivered_at = some at;
  delivered_message_id = mid;
  last_error = none;
}

abbrev pub retried_row : ℕ → DateTime → Text → Row → Row
retried_row n at e r = record r {
  state = pending;
  attempt_count = n;
  next_attempt_at = some (isoformat (to_naive at));
  last_error = some e;
}

abbrev pub buried_row : Text → Row → Row
buried_row reason r = record r {
  state = dead_letter;
  dead_letter_reason = some reason;
  last_error = some reason;
}

-- The rows with the id are changed by `c`, all others stay.
abbrev pub at_id : ℕ → (Row → Row) → List Row → List Row
at_id id c rows = map (λ r. if has_id id r then c r else r) rows

abbrev pub IsUpdated : {A : Type 0} → ℕ → (Row → Row) → World → Result A × World → Type 0
IsUpdated id c w (ok _, w') = w'.rows ≡ at_id id c w.rows
IsUpdated id c w (raise _, w') = w'.rows ≡ w.rows

pub mark_delivered-IsUpdated :
    (id : ℕ) (mid : Option Text) (w : World)
    → (at : Text) × IsUpdated id (delivered_row at mid) w (mark_delivered id mid w)
unfolding mark_delivered
mark_delivered-IsUpdated id mid w = elim (Bool-cases (is_down (next_tick w))) [
  | inl f ↦ rw f ([], refl)
  | inr f ↦ rw f (_, refl)
]

pub mark_retry-IsUpdated :
    (id n : ℕ) (at : DateTime) (e : Text) (w : World)
    → IsUpdated id (retried_row n at e) w (mark_retry id n at e w)
unfolding mark_retry
mark_retry-IsUpdated id n at e w = elim (Bool-cases (is_down w)) [
  | inl f ↦ rw f refl
  | inr f ↦ rw f refl
]

pub mark_dead_letter-IsUpdated :
    (id : ℕ) (reason : Text) (w : World)
    → IsUpdated id (buried_row reason) w (mark_dead_letter id reason w)
unfolding mark_dead_letter
mark_dead_letter-IsUpdated id reason w = elim (Bool-cases (is_down w)) [
  | inl f ↦ rw f refl
  | inr f ↦ rw f refl
]

-- Neither touches the transaction.
pub mark_delivered-saved :
    (id : ℕ) (mid : Option Text) (w : World) → (mark_delivered id mid w).1.saved ≡ w.saved
unfolding mark_delivered
mark_delivered-saved id mid w = elim (Bool-cases (is_down (next_tick w))) [
  | inl f ↦ rw f refl
  | inr f ↦ rw f refl
]

pub mark_retry-saved :
    (id n : ℕ) (at : DateTime) (e : Text) (w : World) → (mark_retry id n at e w).1.saved ≡ w.saved
unfolding mark_retry
mark_retry-saved id n at e w = elim (Bool-cases (is_down w)) [
  | inl f ↦ rw f refl
  | inr f ↦ rw f refl
]

pub mark_dead_letter-saved :
    (id : ℕ) (reason : Text) (w : World) → (mark_dead_letter id reason w).1.saved ≡ w.saved
unfolding mark_dead_letter
mark_dead_letter-saved id reason w = elim (Bool-cases (is_down w)) [
  | inl f ↦ rw f refl
  | inr f ↦ rw f refl
]

pub stats-same : (w : World) → ((stats w).1.rows ≡ w.rows) × ((stats w).1.saved ≡ w.saved)
unfolding stats
stats-same w = elim (Bool-cases (is_down w)) [
  | inl f ↦ rw f (refl, refl)
  | inr f ↦ rw f (refl, refl)
]

pub requeue_in_flight-saved : (w : World) → (requeue_in_flight w).1.saved ≡ w.saved
unfolding requeue_in_flight
requeue_in_flight-saved w = elim (Bool-cases (is_down w)) [ inl f ↦ rw f refl | inr f ↦ rw f refl ]

-- ===== src/Queue/Schema.antt =====
-- The `queue` table of mail_router/queue.py (`SCHEMA`) and the `QueueItem` of
-- mail_router/models.py. A column that SQLite stores as a timestamp holds its text.
use mail_router.Prelude.{
  ℕ, Bool, true, false, ◌&&◌, Text, Option, none, some, text_le, text_eq, ◌==◌,
}
use mail_router.Clock.{DateTime}

-- The values that the CHECK on the column `state` lets through.
pub data State : Type 0 where
  pending in_flight delivered dead_letter : State

abbrev pub state_eq : State → State → Bool
state_eq pending pending = true
state_eq in_flight in_flight = true
state_eq delivered delivered = true
state_eq dead_letter dead_letter = true
state_eq _ _ = false

pub record Row : Type 0 where
  pub id : ℕ
  pub state : State
  pub received_at : Text
  pub sender_email : Text
  pub recipient_email : Text
  pub ds_id : Text
  pub mailbox : Option Text
  pub idempotency_key : Text
  pub raw_eml : Text
  pub attempt_count : ℕ
  pub next_attempt_at : Option Text
  pub last_error : Option Text
  pub delivered_at : Option Text
  pub delivered_message_id : Option Text
  pub dead_letter_reason : Option Text

pub record QueueItem : Type 0 where
  pub id : ℕ
  pub state : State
  pub received_at : DateTime
  pub sender_email : Text
  pub recipient_email : Text
  pub ds_id : Text
  pub mailbox : Option Text
  pub idempotency_key : Text
  pub raw_eml : Text
  pub attempt_count : ℕ
  pub next_attempt_at : Option DateTime
  pub last_error : Option Text
  pub delivered_at : Option DateTime
  pub delivered_message_id : Option Text
  pub dead_letter_reason : Option Text

-- `next_attempt_at IS NULL OR next_attempt_at <= now`
abbrev pub is_due : Text → Option Text → Bool
is_due now none = true
is_due now (some at) = text_le at now

-- The WHERE clauses of the statements.
abbrev pub can_take : Text → Row → Bool
can_take now r = state_eq r.state pending && is_due now r.next_attempt_at

abbrev pub has_id : ℕ → Row → Bool
has_id i r = r.id == i

abbrev pub has_key : Text → Row → Bool
has_key k r = text_eq r.idempotency_key k

abbrev pub has_state : State → Row → Bool
has_state s r = state_eq r.state s

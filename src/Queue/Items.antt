-- ===== src/Queue/Items.antt =====
-- Rows read as items: `_row_to_item` copies the columns and changes nothing.
use mail_router.Prelude.{◌≡◌, refl, ◌∙◌, some, List, [], ◌∷◌, inl, inr, Option-cases}
use mail_router.Clock.{DateTime}
use mail_router.Queue.Schema.{Row, QueueItem}
use mail_router.Queue.Sqlite.{World, Result, ok, raise, next_tick, continue, pure, ◌>>=◌}
use mail_router.Queue.{row_to_item, rows_to_items, parse_ts, item_of}

-- Nothing but the number of ticks differs.
pub record SameTable (w w' : World) : Type 0 where
  pub env : w'.env ≡ w.env
  pub rows : w'.rows ≡ w.rows
  pub sequence : w'.sequence ≡ w.sequence
  pub saved : w'.saved ≡ w.saved
  pub closed : w'.closed ≡ w.closed

-- The columns that are no timestamps are copied.
abbrev pub IsCopy : QueueItem → Row → Type 0
IsCopy item r =
    (item.id ≡ r.id)
    × (item.state ≡ r.state)
    × (item.sender_email ≡ r.sender_email)
    × (item.recipient_email ≡ r.recipient_email)
    × (item.ds_id ≡ r.ds_id)
    × (item.mailbox ≡ r.mailbox)
    × (item.idempotency_key ≡ r.idempotency_key)
    × (item.raw_eml ≡ r.raw_eml)
    × (item.attempt_count ≡ r.attempt_count)

abbrev pub AreCopies : List QueueItem → List Row → Type 0
AreCopies [] [] = Unit
AreCopies (item ∷ items) (r ∷ rs) = IsCopy item r × AreCopies items rs
AreCopies _ _ = ⊥

abbrev pub IsRead : List Row → World → Result (List QueueItem) × World → Type 0
IsRead rs w (ok items, w') = AreCopies items rs × SameTable w w'
IsRead rs w (raise e, w') = ⊥

item_of-IsCopy : (w : World) (r : Row) (t : DateTime) → IsCopy (item_of w r t) r
item_of-IsCopy w r t = (refl, refl, refl, refl, refl, refl, refl, refl, refl)

pub SameTable-refl : (w : World) → SameTable w w
SameTable-refl w = record { env = refl; rows = refl; sequence = refl; saved = refl; closed = refl }

pub SameTable-trans : {u v w : World} → SameTable u v → SameTable v w → SameTable u w
SameTable-trans p q = record {
  env = q.env ∙ p.env;
  rows = q.rows ∙ p.rows;
  sequence = q.sequence ∙ p.sequence;
  saved = q.saved ∙ p.saved;
  closed = q.closed ∙ p.closed;
}

abbrev IsReadOne : Row → World → Result QueueItem × World → Type 0
IsReadOne r w (ok item, w') = IsCopy item r × SameTable w w'
IsReadOne r w (raise e, w') = ⊥

row_to_item-IsReadOne : (r : Row) (w : World) → IsReadOne r w (row_to_item r w)
unfolding row_to_item
row_to_item-IsReadOne r w = elim (Option-cases (parse_ts w (some r.received_at))) [
  | inl e ↦ rw (e, row_to_item) (item_of-IsCopy w r (w.env.clock w.tick), ticked)
  | inr (t, e) ↦ rw (e, row_to_item) (item_of-IsCopy w r t, SameTable-refl w)
]
  where
    ticked : SameTable w (next_tick w)
    ticked = record { env = refl; rows = refl; sequence = refl; saved = refl; closed = refl }

-- One item after the others.
step :
    (r : Row) (rs : List Row) (w : World) (a : Result QueueItem × World)
    → IsReadOne r w a
    → ((v : World) → IsRead rs v (rows_to_items rs v))
    → IsRead
        (r ∷ rs)
        w
        (continue a.0 (λ item. rows_to_items rs >>= λ items. pure (item ∷ items)) a.1)
step r rs w (ok item, v) (copy, same) rest = last item v copy same (rows_to_items rs v) (rest v)
  where
    last :
        (item : QueueItem) (v : World)
        → IsCopy item r
        → SameTable w v
        → (b : Result (List QueueItem) × World) → IsRead rs v b
        → IsRead (r ∷ rs) w (continue b.0 (λ items. pure (item ∷ items)) b.1)
    last item v copy same (ok items, u) (copies, same') =
        ((copy, copies), SameTable-trans same same')
    last item v copy same (raise e, u) h = absurd h
step r rs w (raise e, v) h rest = absurd h

-- Reading rows never raises, copies every row in order, and leaves the table alone.
pub rows_to_items-IsRead : (rs : List Row) (w : World) → IsRead rs w (rows_to_items rs w)
unfolding rows_to_items
rows_to_items-IsRead [] w = (tt, SameTable-refl w)
rows_to_items-IsRead (r ∷ rs) w =
    step r rs w (row_to_item r w) (row_to_item-IsReadOne r w) (rows_to_items-IsRead rs)

-- ===== src/Queue/Retry.antt =====
-- Putting items off, and taking back what a dead worker had in flight.
use mathlib.Core.Option
use mail_router.Prelude.{
  ℕ, ◌≡◌, refl, ◌∙◌, ap, false, Text, none, some, List, [], ◌∷◌, map, arith, count, find_first,
  ◌==◌, if◌then◌else◌,
}
use mail_router.Clock.{DateTime, isoformat, whole_second, to_aware, to_naive}
use mail_router.Clock.Print.{IsPrintable, datetime_le, text_le_due}
use mail_router.Queue.Schema.{pending, in_flight, Row, can_take, has_id, has_state}
use mail_router.Queue.Sqlite.{World, ok, is_down, next_tick}
use mail_router.Queue.{mark_retry, requeue_in_flight}
use mail_router.Queue.Table.{find-map}

-- The row of an item that was put off can be taken from the point of time on that was given, and
-- not before: the comparison of texts in `dequeue_batch` is that of the points of time.
pub mark_retry-can_take :
    (id n : ℕ) (at now : DateTime) (e : Text) (w : World) (r : Row)
    → is_down w ≡ false
    → find_first (has_id id) w.rows ≡ some r
    → IsPrintable at
    → IsPrintable now
    → (r' : Row) × (find_first (has_id id) (mark_retry id n at e w).1.rows ≡ some r')
      × (r'.attempt_count ≡ n)
      × (r'.idempotency_key ≡ r.idempotency_key)
      × (can_take (isoformat (to_aware (whole_second now))) r' ≡ datetime_le at (whole_second now))
unfolding mark_retry
mark_retry-can_take id n at now e w r up found p q = rw up (
  changed r,
  find-map (has_id id) (λ x. if x.id == id then changed x else x) (λ x. ground arith) w.rows
      ∙ ap (Option.map (λ x. if x.id == id then changed x else x)) found
      ∙ ap some (ground (arith, has_id-find w.rows r found)),
  refl,
  refl,
  text_le_due at now p q,
)
  where
    changed : Row → Row
    changed x = record x {
      state = pending;
      attempt_count = n;
      next_attempt_at = some (isoformat (to_naive at));
      last_error = some e;
    }

    has_id-find : (rows : List Row) (r : Row) → find_first (has_id id) rows ≡ some r → r.id ≡ id
    has_id-find [] r h = cc
    has_id-find (x ∷ rows) r h = ground (arith, has_id-find rows r)

none_left :
    (rows : List Row)
    → count (has_state in_flight) (
        map
          (λ r.
            if has_state in_flight r
            then record r { state = pending; next_attempt_at = none }
            else r)
          rows)
      ≡ 0
none_left [] = refl
none_left (r ∷ rows) = ground (arith, none_left rows)

unchanged :
    (rows : List Row)
    → count (has_state in_flight) rows ≡ 0
    → map
        (λ r.
          if has_state in_flight r then record r { state = pending; next_attempt_at = none } else r)
        rows
      ≡ rows
unchanged [] h = refl
unchanged (r ∷ rows) h = ground (arith, unchanged rows)

-- `requeue_in_flight`, where its statement does not raise, returns the number of rows in flight and
-- leaves none in flight; a second call that does not raise returns 0 and changes no row.
requeue_in_flight_idem :
    (w : World)
    → is_down w ≡ false
    → is_down (next_tick w) ≡ false
    → ((requeue_in_flight w).0 ≡ ok (count (has_state in_flight) w.rows))
      × (count (has_state in_flight) (requeue_in_flight w).1.rows ≡ 0)
      × ((requeue_in_flight (requeue_in_flight w).1).0 ≡ ok 0)
      × ((requeue_in_flight (requeue_in_flight w).1).1.rows ≡ (requeue_in_flight w).1.rows)
unfolding requeue_in_flight
requeue_in_flight_idem w up up' =
    rw (up, up') (refl, none_left w.rows, ap ok (none_left w.rows), unchanged _ (none_left w.rows))

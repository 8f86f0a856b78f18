-- ===== src/Queue/Requeued.antt =====
-- What `requeue_in_flight` moves.
use mail_router.Prelude.{◌≡◌, refl, none, List, [], ◌∷◌, map, arith, count, if◌then◌else◌}
use mail_router.Queue.{requeue_in_flight}
use mail_router.Queue.Schema.{pending, in_flight, dead_letter, Row, has_state}
use mail_router.Queue.Sqlite.{World, ok}
use mail_router.Queue.Up.{IsUp}
use mail_router.Queue.Counts.{Moves, IsOld, map-IsOld}

requeued_row : Row → Row
requeued_row r =
    if has_state in_flight r then record r { state = pending; next_attempt_at = none } else r

requeued-Moves :
    (rows : List Row)
    → Moves in_flight pending (count (has_state in_flight) rows) rows (map requeued_row rows)
unfolding requeued_row
requeued-Moves [] x = ground arith
requeued-Moves (r ∷ rows) x = ground (arith, requeued-Moves rows x)

pub requeue_in_flight-Moves :
    (w : World)
    → IsUp w
    → ((requeue_in_flight w).0 ≡ ok (count (has_state in_flight) w.rows))
      × Moves in_flight pending
          (count (has_state in_flight) w.rows)
          w.rows
          (requeue_in_flight w).1.rows
      × IsOld dead_letter w.rows (requeue_in_flight w).1.rows
unfolding requeue_in_flight requeued_row
requeue_in_flight-Moves w up =
    rw (up.is_open, up.answers w.tick)
      (
        refl,
        requeued-Moves w.rows,
        map-IsOld dead_letter requeued_row (λ r. ground arith) (λ r h. ground arith) w.rows,
      )

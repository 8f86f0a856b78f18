-- ===== src/Queue/Enqueue.antt =====
-- What `Queue.enqueue` does, on every branch.
use mail_router.Prelude.{
  ℕ, ◌+◌, ◌≤◌, ◌≡◌, refl, Bool, true, false, Text, none, some, [], ◌∷◌, ◌++◌, arith, inl, inr,
  Bool-cases, Option-cases,
}
use mail_router.Clock.{isoformat, whole_second, to_aware}
use mail_router.Queue.Schema.{Row}
use mail_router.Queue.Sqlite.{World, Result, ok, raise, database, next_tick, is_down}
use mail_router.Queue.{Mail, enqueue, new_row, with_key}

-- The reading of the clock that a method at `w` begins with.
abbrev pub stamp : World → Text
stamp w = isoformat (to_aware (whole_second (w.env.clock w.tick)))

abbrev pub IsEnqueued : Mail → World → Result (ℕ × Bool) × World → Type 0
IsEnqueued m w (ok (id, true), w') =
    (with_key m.idempotency_key w ≡ none)
    × (id ≡ w.sequence + 1)
    × (w'.sequence ≡ id)
    × (w'.rows ≡ w.rows ++ new_row id (stamp w) m ∷ [])
    × (w'.saved ≡ w.saved)
IsEnqueued m w (ok (id, false), w') =
    (r : Row) × (with_key m.idempotency_key w ≡ some r)
    × (id ≡ r.id)
    × (w'.rows ≡ w.rows)
    × (w.sequence ≤ w'.sequence)
    × (w'.saved ≡ w.saved)
IsEnqueued m w (raise e, w') =
    (e ≡ database) × (w'.rows ≡ w.rows) × (w.sequence ≤ w'.sequence) × (w'.saved ≡ w.saved)

-- `enqueue` either inserts one pending row at the end, with the next id and the time it began at, if
-- no row had the key; or returns the id of the row that has the key and changes no row; or raises
-- the database's error and changes no row. An open transaction stays as it was.
pub enqueue-IsEnqueued : (m : Mail) (w : World) → IsEnqueued m w (enqueue m w)
unfolding enqueue
enqueue-IsEnqueued m w = elim (Option-cases (with_key m.idempotency_key w)) [
  | inl e ↦ ground arith
  | inr (r, e) ↦ elim (Bool-cases (is_down (next_tick w))) [
    | inl f ↦ ground arith
    | inr f ↦ elim (Bool-cases (is_down (next_tick (next_tick w)))) [
      | inl f' ↦ ground arith
      | inr f' ↦ rw (f, e, f', e) (r, e, refl, refl, omega arith, refl)
    ]
  ]
]

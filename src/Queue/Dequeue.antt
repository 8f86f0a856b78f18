-- ===== src/Queue/Dequeue.antt =====
-- What the transaction of `Queue.dequeue_batch` does, on every branch.
use mail_router.Prelude.{
  ℕ, ◌+◌, ◌≡◌, refl, sym, ap, ◌∙◌, ◌⊎◌, inl, inr, Text, none, some, List, [], ◌∷◌, map, take,
  select, inl, inr, Bool-cases, Option-cases,
}
use mail_router.Queue.Schema.{Row, can_take}
use mail_router.Queue.Sqlite.{
  World, Result, ok, raise, raises, catch, database, next_tick, is_down, ◌>>◌,
}
use mail_router.Queue.{dequeue_rows, ids, mark_in_flight, take_rows, rollback}

pub map-mark_nil : (rs : List Row) → map (mark_in_flight []) rs ≡ rs
map-mark_nil [] = refl
map-mark_nil (r ∷ rs) = rw (map-mark_nil rs)

-- A statement failed: either the transaction is rolled back, and the table is as it was, or
-- ROLLBACK failed too, and the transaction is still open over the table as it was.
abbrev pub IsUndone : World → World → Type 0
IsUndone w w' =
    (w'.sequence ≡ w.sequence)
    × ((w'.rows ≡ w.rows) × (w'.saved ≡ w.saved)
        ⊎ (w.saved ≡ none)
          × (w'.saved ≡ some w.rows)
          × ((taken : List ℕ) × (w'.rows ≡ map (mark_in_flight taken) w.rows)))

abbrev pub due_rows : Text → ℕ → World → List Row
due_rows now limit w = take limit (w.env.order_by_received (select (can_take now) w.rows))

abbrev pub IsDequeued : Text → ℕ → World → Result (List Row) × World → Type 0
IsDequeued now limit w (ok rows, w') =
    (rows ≡ due_rows now limit w)
    × (w'.rows ≡ map (mark_in_flight (ids rows)) w.rows)
    × (w'.sequence ≡ w.sequence)
    × (w.saved ≡ none)
    × (w'.saved ≡ none)
IsDequeued now limit w (raise e, w') = (e ≡ database) × IsUndone w w'

-- The handler of `except Exception`, over an open transaction.
rollback-IsDequeued :
    (now : Text) (limit : ℕ) (w v : World) (taken : List ℕ)
    → v.sequence ≡ w.sequence
    → w.saved ≡ none
    → v.saved ≡ some w.rows
    → v.rows ≡ map (mark_in_flight taken) w.rows
    → IsDequeued now limit w ((rollback >> raises database) v)
rollback-IsDequeued now limit w v taken es ew ev er = elim (Bool-cases (is_down v)) [
  | inl f ↦ rw f (refl, (es, inr (ew, ev, (taken, er))))
  | inr f ↦ rw (f, ev) (refl, (es, inl (refl, sym ew)))
]

-- The rest of the body, after the SELECT.
take_rows-lem :
    (now : Text) (limit : ℕ) (w v : World) (rows : List Row)
    → v.sequence ≡ w.sequence
    → w.saved ≡ none
    → v.saved ≡ some w.rows
    → v.rows ≡ w.rows
    → rows ≡ due_rows now limit w
    → IsDequeued now limit w (catch (take_rows rows) (λ e. rollback >> raises e) v)
take_rows-lem now limit w v [] es ew ev er ed = elim (Bool-cases (is_down v)) [
  | inl f ↦
      rw f
        (rollback-IsDequeued now limit w (next_tick v) [] es ew ev (er ∙ sym (map-mark_nil w.rows)))
  | inr f ↦ rw f (ed, er ∙ sym (map-mark_nil w.rows), es, ew, refl)
]
take_rows-lem now limit w v (r ∷ rows) es ew ev er ed = elim (Bool-cases (is_down v)) [
  | inl f ↦
      rw f
        (rollback-IsDequeued now limit w (next_tick v) [] es ew ev (er ∙ sym (map-mark_nil w.rows)))
  | inr f ↦ elim (Bool-cases (is_down (next_tick v))) [
    | inl f' ↦
        rw (f, f')
          (rollback-IsDequeued now limit w
            (next_tick
              (record v { rows = map (mark_in_flight (ids (r ∷ rows))) v.rows; tick = v.tick + 1 }))
            (ids (r ∷ rows)) es ew ev (ap (map (mark_in_flight (ids (r ∷ rows)))) er))
    | inr f' ↦ rw (f, f') (ed, ap (map (mark_in_flight (ids (r ∷ rows)))) er, es, ew, refl)
  ]
]

pub dequeue_rows-IsDequeued :
    (now : Text) (limit : ℕ) (w : World) → IsDequeued now limit w (dequeue_rows now limit w)
unfolding dequeue_rows
dequeue_rows-IsDequeued now limit w =
    let w' : World = record w { saved = none } in
    let v : World = next_tick (record w { saved = some w.rows; tick = w.tick + 1 }) in
    elim (Option-cases w.saved) [
      | inr (before, e) ↦ rw e (refl, (refl, inl (refl, refl)))
      | inl e ↦ elim (Bool-cases (is_down w)) [
        | inl f ↦ rw (e, f) (refl, (refl, inl (refl, refl)))
        | inr f ↦ elim (Bool-cases (is_down (next_tick w))) [
          | inl f' ↦
              rw (e, f, f')
                (rollback-IsDequeued now limit w' v [] refl refl refl (sym (map-mark_nil w.rows)))
          | inr f' ↦
              rw (e, f, f')
                (take_rows-lem now limit w' v (due_rows now limit w) refl refl refl refl refl)
        ]
      ]
    ]

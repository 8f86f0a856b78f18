-- ===== src/Queue/Marked.antt =====
-- What marking the rows of a batch moves.
use mail_router.Prelude.{
  ℕ, ◌≡◌, ◌≢◌, refl, sym, subst, List, [], ◌∷◌, map, arith, All, All-map, All-both, length, ap₂,
}
use mail_router.Queue.Schema.{pending, in_flight, dead_letter, Row}
use mail_router.Queue.Updates.{at_id}
use mail_router.Queue.{mark_in_flight}
use mail_router.Queue.Counts.{
  DifferentIds, IsIn, Moves, AreDifferent, IsOld, map-IsOld, map-find, at_id-DifferentIds,
  at_id-IsIn, at_id-new, at_id-Moves, Moves-trans,
}
use mail_router.Queue.Dequeue.{map-mark_nil}

abbrev in_flight_row : Row → Row
in_flight_row r = record r { state = in_flight }

mark-split :
    (i : ℕ) (taken : List ℕ) (rows : List Row)
    → map (mark_in_flight (i ∷ taken)) rows
      ≡ map (mark_in_flight taken) (at_id i in_flight_row rows)
mark-split i taken [] = refl
mark-split i taken (r ∷ rows) = ap₂ (λ q qs. q ∷ qs) (ground arith) (mark-split i taken rows)

pub mark_id : (taken : List ℕ) (r : Row) → (mark_in_flight taken r).id ≡ r.id
mark_id taken r = ground arith

mark-IsIn :
    (taken : List ℕ) (i : ℕ) (rows : List Row)
    → IsIn in_flight rows i
    → IsIn in_flight (map (mark_in_flight taken) rows) i
mark-IsIn taken i rows (q, found, at) = (
  mark_in_flight taken q,
  map-find (mark_in_flight taken) (mark_id taken) i rows q found,
  ground arith,
)

abbrev IsMoved : List ℕ → List Row → ℕ → List Row → Type 0
IsMoved taken rows k rows' = Moves pending in_flight k rows rows' × All (IsIn in_flight rows') taken

-- Marking rows that wait moves them.
pub mark-Moves :
    (taken : List ℕ) (rows : List Row)
    → DifferentIds rows
    → AreDifferent taken
    → All (IsIn pending rows) taken
    → IsMoved taken rows (length taken) (map (mark_in_flight taken) rows)
mark-Moves [] rows different apart inside = rw (map-mark_nil rows) ((λ x. ground arith), tt)
mark-Moves (i ∷ taken) rows different (others, apart) (here, inside) =
    let rows' = at_id i in_flight_row rows in
    let (moves, moved) =
      mark-Moves taken rows'
        (at_id-DifferentIds i in_flight_row in_flight (λ r. refl) (λ r. refl) rows different) apart
        (All-map taken
          (λ j p.
            at_id-IsIn i in_flight_row in_flight (λ r. refl) (λ r. refl) pending j rows p.0 p.1)
          (All-both (λ j. j ≢ i) (IsIn pending rows) taken others inside)) in
    subst (IsMoved (i ∷ taken) rows (length (i ∷ taken))) (sym (mark-split i taken rows)) (
      Moves-trans pending in_flight 1 (length taken) (length (i ∷ taken)) rows rows'
          (map (mark_in_flight taken) rows') (omega arith)
          (at_id-Moves i in_flight_row in_flight (λ r. refl) (λ r. refl) pending rows different
            here)
          moves,
      (
        mark-IsIn taken i rows'
            (at_id-new i in_flight_row in_flight (λ r. refl) (λ r. refl) pending rows here),
        moved,
      ),
    )

pub mark-IsOld :
    (taken : List ℕ) (rows : List Row) → IsOld dead_letter rows (map (mark_in_flight taken) rows)
mark-IsOld taken =
    map-IsOld dead_letter (mark_in_flight taken) (λ r. ground arith) (λ r h. ground arith)

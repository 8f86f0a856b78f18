-- ===== src/Worker/Drain.antt =====
-- What a worker delivers whose run meets no failure: the batches, row by row.
use mail_router.Prelude.{
  ℕ, ◌≡◌, ◌≢◌, refl, ◌∙◌, ap, subst, Bool, true, false, not, ◌&&◌, ◌||◌, if◌then◌else◌, Text,
  Option, none, some, List, [], ◌∷◌, map, arith, All, All-map, All-both, length, Bool-cases, inl,
  inr,
}
use mail_router.Exec.{Result, ok, raise}
use mail_router.Queue.Schema.{
  pending, in_flight, delivered, dead_letter, Row, QueueItem, has_id, has_state, can_take,
}
use mail_router.Queue.Updates.{at_id, delivered_row}
use mail_router.Queue.Delivery.{item_ids}
use mail_router.Queue.Counts.{
  IsOld, map-IsOld, DifferentIds, IsIn, Moves, Moves-trans, AreDifferent, at_id-Moves, at_id-IsIn,
  at_id-DifferentIds,
}
use mail_router.Queue.Up.{IsUp}
use mail_router.Client.{DsConfig, ParsedEmail}
use mail_router.Lookup
use mail_router.Lookup.{Lookup}
use mail_router.Lookup.Reload.{resolve-static}
use mail_router.Parser.{EmailPackage, Parsed, parsed, parse_error, parse_eml}
use mail_router.Worker.{Worker, process_all}
use mail_router.Worker.Round.{setting_of}
use mail_router.Worker.Deliver.{
  IsKnown, AreKnown, AcceptsAll, mails_of, with_delivered, process-delivers,
}

abbrev is_found : Result (Option DsConfig) → Bool
is_found (ok (some ds)) = true
is_found _ = false

abbrev is_parsed : Parsed → Bool
is_parsed (parsed mail) = true
is_parsed (parse_error exc) = false

abbrev is_none : Option Text → Bool
is_none none = true
is_none (some at) = false

-- If the row waits, then it is due at any time, its data source is found, and its mail can be parsed.
abbrev pub is_sound : EmailPackage → Lookup → Row → Bool
is_sound email l r =
    not (has_state pending r)
    || (is_none r.next_attempt_at
        && (is_found (Lookup.resolve r.ds_id l).0 && is_parsed (parse_eml email r.raw_eml)))

abbrev pub AreSound : EmailPackage → Lookup → List Row → Type 0
AreSound email l rows = All (λ r. is_sound email l r ≡ true) rows

pub is_sound-due :
    (email : EmailPackage) (l : Lookup) (now : Text) (r : Row)
    → is_sound email l r ≡ true
    → can_take now r ≡ has_state pending r
is_sound-due email l now r h = ground arith

pub is_sound-IsKnown :
    (email : EmailPackage) (l : Lookup) (r : Row)
    → is_sound email l r ≡ true
    → has_state pending r ≡ true
    → IsKnown email l r.ds_id r.raw_eml
is_sound-IsKnown email l r h waits = (found _ (ground arith), read _ (ground arith))
  where
    found :
        (x : Result (Option DsConfig)) → is_found x ≡ true → (ds : DsConfig) × (x ≡ ok (some ds))
    found (ok (some ds)) e = (ds, refl)
    found (ok none) e = cc
    found (raise x) e = cc

    read : (x : Parsed) → is_parsed x ≡ true → (mail : ParsedEmail) × (x ≡ parsed mail)
    read (parsed mail) e = (mail, refl)
    read (parse_error exc) e = cc

pub resolve-same :
    (ds_id : Text) (l : Lookup) → l.table.auto_reload ≡ false → (Lookup.resolve ds_id l).1 ≡ l
resolve-same ds_id l static = ap (λ a. a.1) (resolve-static ds_id l static)

module _ (email : EmailPackage) (l : Lookup) where
  pub map-AreSound :
      (f : Row → Row)
      → ((r : Row) → is_sound email l r ≡ true → is_sound email l (f r) ≡ true)
      → (rows : List Row) → AreSound email l rows
      → AreSound email l (map f rows)
  map-AreSound f keep [] h = tt
  map-AreSound f keep (r ∷ rows) (h, hs) = (keep r h, map-AreSound f keep rows hs)

  at_id-AreSound :
      (i : ℕ) (at : Text) (mid : Option Text) (rows : List Row)
      → AreSound email l rows
      → AreSound email l (at_id i (delivered_row at mid) rows)
  at_id-AreSound i at mid =
      map-AreSound (λ r. if has_id i r then delivered_row at mid r else r)
        (λ r h. elim (Bool-cases (has_id i r)) [ inl e ↦ rw e refl | inr e ↦ rw e h ])

pub record Drains (items : List QueueItem) (s : Worker) (a : Result Unit × Worker) : Type 0 where
  pub moves : Moves in_flight delivered (length items) s.queue.rows a.1.queue.rows
  pub sound : AreSound s.email s.lookup s.queue.rows → AreSound s.email s.lookup a.1.queue.rows
  pub old : IsOld dead_letter s.queue.rows a.1.queue.rows
  pub site : setting_of a.1 ≡ setting_of s

pub process_all-Drains :
    (items : List QueueItem) (s : Worker)
    → AreKnown s.email (mails_of items) s.lookup
    → AcceptsAll s.python s.post
    → IsUp s.queue
    → s.lookup.table.auto_reload ≡ false
    → DifferentIds s.queue.rows
    → AreDifferent (item_ids items)
    → All (IsIn in_flight s.queue.rows) (item_ids items)
    → Drains items s (process_all items s)
unfolding process_all
process_all-Drains [] s known taking up static different apart inside = record {
  moves = λ x. ground arith;
  sound = λ h. h;
  old = λ k h. h;
  site = refl;
}
process_all-Drains (item ∷ items) s (known, others) taking up static different (other, apart)
      (here, inside) =
    let (at, mid, e) = process-delivers item s known taking up in
    let t = with_delivered item at mid s in
    let same = resolve-same item.ds_id s.lookup static in
    let c = delivered_row at mid in
    let later =
      process_all-Drains items t others taking
        (record { is_open = up.is_open; answers = up.answers })
        (ap (λ (l : Lookup). l.table.auto_reload) same ∙ static)
        (at_id-DifferentIds item.id c delivered (λ r. refl) (λ r. refl) s.queue.rows different)
        apart
        (All-map (item_ids items)
          (λ j p.
            at_id-IsIn item.id c delivered (λ r. refl) (λ r. refl) in_flight j s.queue.rows p.0 p.1)
          (All-both (λ j. j ≢ item.id) (IsIn in_flight s.queue.rows) (item_ids items) other
            inside)) in
    rw e (record {
      moves =
          Moves-trans in_flight delivered 1 (length items) (length (item ∷ items)) s.queue.rows
            t.queue.rows (process_all items t).1.queue.rows (omega arith)
            (at_id-Moves item.id c delivered (λ r. refl) (λ r. refl) in_flight s.queue.rows
              different here)
            later.moves;
      sound = λ h.
          subst
            (λ l.
              AreSound s.email l t.queue.rows
              → AreSound s.email l (process_all items t).1.queue.rows)
            same later.sound (at_id-AreSound s.email s.lookup item.id at mid s.queue.rows h);
      old = λ k h.
          map-IsOld dead_letter (λ r. if has_id item.id r then c r else r) (λ r. ground arith)
            (λ r g. ground arith) s.queue.rows k (later.old k h);
      site = later.site ∙ ap (λ (l : Lookup). (s.config, l, s.python, s.email, s.post)) same;
    })

-- ===== src/LookupSync/Atomic.antt =====
-- What `_write_atomic` leaves at every moment: an atomic replacement of one file.
use mail_router.Prelude.{
  ℕ, ◌+◌, ◌≡◌, refl, ◌∙◌, Text, [], ◌∷◌, take, All, Bool-cases, inl, inr, ◌⊎◌,
}
use mail_router.Exec.{Result, ok, raise, value_error, os_error, raises, ◌>>◌}
use mail_router.LookupSync.Disk.{
  StoredFile, Target, lookup_file, etag_file, Files, put, Disk, owner_only, write_atomic, unlink,
  step_on, ticked, set_content, on_temp,
}

-- The two files are the same; temporary files do not count.
abbrev pub SameSeen : Files → Files → Type 0
SameSeen f g = (f.lookup ≡ g.lookup) × (f.etag ≡ g.etag)

-- The directory at some moment of a replacement that started at `start`.
abbrev pub IsMoment : Target → StoredFile → Files → Files → Type 0
IsMoment target file start f = SameSeen f start ⊎ SameSeen f (put target file start)

-- It returns after the replacement, or raises with both files as they were.
abbrev pub IsReplaced : Target → StoredFile → Files → Result Unit × Disk → Type 0
IsReplaced target file start (ok _, w) = SameSeen w.files (put target file start)
IsReplaced target file start (raise e, w) =
    SameSeen w.files start × ((e ≡ os_error) ⊎ (e ≡ value_error))

pub put-SameSeen :
    (target : Target) (file : StoredFile) (f g : Files)
    → SameSeen f g
    → SameSeen (put target file f) (put target file g)
put-SameSeen lookup_file file f g (l, e) = (refl, e)
put-SameSeen etag_file file f g (l, e) = (l, refl)

pub SameSeen-trans : (f g h : Files) → SameSeen f g → SameSeen g h → SameSeen f h
SameSeen-trans f g h (l, e) (l', e') = (l ∙ l', e ∙ e')

-- `P` holds of every moment of the replacement, and held of every moment before it.
module _ (target : Target) (content : Text) (mode : ℕ) (w : Disk) (P : Files → Type 0)
    (now : (f : Files)
      → IsMoment target (record { content = content; mode = mode }) w.files f
      → P f)
    (past : All P w.history) where
  abbrev pub IsAtomic : Result Unit × Disk → Type 0
  IsAtomic a =
      IsReplaced target (record { content = content; mode = mode }) w.files a × All P a.1.history

  -- The handler, with both files still as they were.
  clean_up-IsAtomic :
      (v : Disk)
      → SameSeen v.files w.files
      → All P v.history
      → IsAtomic ((unlink >> raises os_error) v)
  clean_up-IsAtomic v same moments = elim (Bool-cases (v.env.fails v.tick)) [
    | inl f ↦ rw f ((same, inl refl), moments)
    | inr f ↦ rw f ((same, inl refl), (now _ (inl same), moments))
  ]

  -- The disk after each call of the body.
  abbrev made : Disk
  made =
      step_on
        (record w.files { temps = record { content = []; mode = owner_only } ∷ w.files.temps })
        (ticked w)

  abbrev begun : Disk
  begun = step_on (set_content (take (w.env.torn made.tick) content) made.files) (ticked made)

  abbrev full : Disk
  full = step_on (set_content content begun.files) begun

  abbrev owned : Disk
  owned = step_on (on_temp (λ t. record t { mode = mode }) full.files) (ticked full)

  pub write_atomic-IsAtomic : IsAtomic (write_atomic target content mode w)
  unfolding write_atomic
  write_atomic-IsAtomic = elim (Bool-cases (w.env.fails w.tick)) [
    | inl f ↦ rw f (((refl, refl), inl refl), past)
    | inr f ↦ elim (Bool-cases (w.env.is_encodable content)) [
      | inr g ↦ rw (f, g) (((refl, refl), inr refl), (now _ (inl (refl, refl)), past))
      | inl g ↦ elim (Bool-cases (w.env.fails (w.tick + 1))) [
        | inl h ↦
            rw (f, g, h)
              (clean_up-IsAtomic begun (refl, refl)
                (now _ (inl (refl, refl)), (now _ (inl (refl, refl)), past)))
        | inr h ↦ elim (Bool-cases (w.env.fails (w.tick + 1 + 1))) [
          | inl k ↦
              rw (f, g, h, k)
                (clean_up-IsAtomic (ticked full) (refl, refl)
                  (
                    now _ (inl (refl, refl)),
                    (now _ (inl (refl, refl)), (now _ (inl (refl, refl)), past)),
                  ))
          | inr k ↦ elim (Bool-cases (w.env.fails (w.tick + 1 + 1 + 1))) [
            | inl l ↦
                rw (f, g, h, k, l)
                  (clean_up-IsAtomic (ticked owned) (refl, refl)
                    (
                      now _ (inl (refl, refl)),
                      (
                        now _ (inl (refl, refl)),
                        (now _ (inl (refl, refl)), (now _ (inl (refl, refl)), past)),
                      ),
                    ))
            | inr l ↦
                rw (f, g, h, k, l)
                  (
                    put-SameSeen target _ _ _ (refl, refl),
                    (
                      now _ (inr (put-SameSeen target _ _ _ (refl, refl))),
                      (
                        now _ (inl (refl, refl)),
                        (
                          now _ (inl (refl, refl)),
                          (now _ (inl (refl, refl)), (now _ (inl (refl, refl)), past)),
                        ),
                      ),
                    ),
                  )
          ]
        ]
      ]
    ]
  ]

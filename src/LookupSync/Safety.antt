-- ===== src/LookupSync/Safety.antt =====
-- What a sync can do to the lookup file, at every moment and with every answer.
use mail_router.Prelude.{ℕ, ◌≡◌, refl, subst, All, inl, inr, ◌⊎◌}
use mail_router.Json.{Json}
use mail_router.Exec.{Exec, Error, Result, ok, raise, value_error, os_error, pure, continue}
use mail_router.LookupSync.Disk.{
  StoredFile, lookup_file, etag_file, Files, put, Disk, owner_only, write_atomic, handle_os,
}
use mail_router.LookupSync.Atomic.{
  SameSeen, IsMoment, IsReplaced, SameSeen-trans, put-SameSeen, write_atomic-IsAtomic,
}
use mail_router.LookupSync.Run.{Response, Services, lookup_text, etag_text, store}

module _ (services : Services) (r : Response) (payload : Json) (start : Files) where
  abbrev pub new_lookup : StoredFile
  new_lookup = record { content = lookup_text services payload; mode = owner_only }

  abbrev pub new_etag : StoredFile
  new_etag = record { content = etag_text r; mode = owner_only }

  abbrev pub halfway : Files
  halfway = put lookup_file new_lookup start

  abbrev pub complete : Files
  complete = put etag_file new_etag halfway

  -- The directory at some moment of an update: both files as they were, or the lookup file new, or
  -- both new.
  abbrev pub IsUpdating : Files → Type 0
  IsUpdating f = SameSeen f start ⊎ SameSeen f halfway ⊎ SameSeen f complete

  abbrev pub IsStored : Result ℕ × Disk → Type 0
  IsStored (ok n, w) =
      (n ≡ 0) × SameSeen w.files complete
      ⊎ (n ≡ 1) × (SameSeen w.files start ⊎ SameSeen w.files halfway)
  IsStored (raise e, w) = (e ≡ value_error) × (SameSeen w.files start ⊎ SameSeen w.files halfway)

  module _ (w : Disk) (here : w.files ≡ start) (P : Files → Type 0)
      (now : (f : Files) → IsUpdating f → P f) (past : All P w.history) where
    caught :
        (e : Error) (v : Disk)
        → (e ≡ os_error) ⊎ (e ≡ value_error)
        → SameSeen v.files start ⊎ SameSeen v.files halfway
        → All P v.history
        → IsStored (handle_os (raise e) (λ _. pure 1) v)
          × All P (handle_os {A = ℕ} (raise e) (λ _. pure 1) v).1.history
    caught e v (inl os) same moments = rw os (inr (refl, same), moments)
    caught e v (inr other) same moments = rw other ((refl, same), moments)

    abbrev finish : Result ℕ × Disk → Result ℕ × Disk
    finish a = handle_os a.0 (λ _. pure 1) a.1

    abbrev and_zero : Result Unit × Disk → Result ℕ × Disk
    and_zero a = continue a.0 (λ _. pure 0) a.1

    abbrev write_etag : Exec Disk ℕ
    write_etag v = and_zero (write_atomic etag_file (etag_text r) owner_only v)

    abbrev then_etag : Result Unit × Disk → Result ℕ × Disk
    then_etag a = continue a.0 (λ _. write_etag) a.1

    -- after the second write
    last :
        (v : Files) (a : Result Unit × Disk)
        → SameSeen v halfway
        → IsReplaced etag_file new_etag v a
        → All P a.1.history
        → IsStored (finish (and_zero a)) × All P (finish (and_zero a)).1.history
    last v (ok u, x) before replaced moments = (
      inl (
        refl,
        SameSeen-trans x.files (put etag_file new_etag v) complete replaced
            (put-SameSeen etag_file new_etag v halfway before),
      ),
      moments,
    )
    last v (raise e, x) before (same, why) moments =
        caught e x why (inr (SameSeen-trans x.files v halfway same before)) moments

    -- after the first write
    second :
        (a : Result Unit × Disk)
        → IsReplaced lookup_file new_lookup start a
        → All P a.1.history
        → IsStored (finish (then_etag a)) × All P (finish (then_etag a)).1.history
    second (raise e, v) (same, why) moments = caught e v why (inl same) moments
    second (ok u, v) replaced moments =
        let (done, moments') =
          write_atomic-IsAtomic etag_file (etag_text r) owner_only v P later moments in
        last v.files (write_atomic etag_file (etag_text r) owner_only v) replaced done moments'
      where
        later : (f : Files) → IsMoment etag_file new_etag v.files f → P f
        later f (inl same) = now f (inr (inl (SameSeen-trans f v.files halfway same replaced)))
        later f (inr new) = now f (
            inr (
              inr (
                SameSeen-trans f (put etag_file new_etag v.files) complete new
                  (put-SameSeen etag_file new_etag v.files halfway replaced))))

    pub store-IsStored :
        IsStored (store services r payload w) × All P (store services r payload w).1.history
    store-IsStored =
        let (done, moments) =
          write_atomic-IsAtomic lookup_file (lookup_text services payload) owner_only w P first
            past in
        second (write_atomic lookup_file (lookup_text services payload) owner_only w)
          (subst
            (λ f.
              IsReplaced lookup_file new_lookup f
                (write_atomic lookup_file (lookup_text services payload) owner_only w))
            here done)
          moments
      where
        first : (f : Files) → IsMoment lookup_file new_lookup w.files f → P f
        first f (inl same) = now f (inl (subst (SameSeen f) here same))
        first f (inr new) =
            now f (inr (inl (subst (λ g. SameSeen f (put lookup_file new_lookup g)) here new)))

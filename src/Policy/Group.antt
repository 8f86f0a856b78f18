-- ===== src/Policy/Group.antt =====
-- `_mask_owning_group` of mail_router/policy.py on the file at the socket's path. The groups of the
-- system are given, and so is which system call raises.
use mail_router.Prelude.{ℕ, ◌+◌, ◌≡◌, refl, Bool, false, true, Text, Option, none, some, [], ◌∷◌}
use mail_router.Exec.{Exec, ok, raise, os_error, pure, ◌>>=◌, ◌>>◌}

-- What `stat` reads of a file.
record Node : Type 0 where
  owner : ℕ
  group : ℕ
  mode : ℕ

record File : Type 0 where
  fails : ℕ → Bool
  -- what stands at the path, if anything does
  found : Option Node
  tick : ℕ

abbrev ended : {A : Type 0} → Bool → Option Node → (Node → A × Node) → Exec File A
ended true n change s = (raise os_error, s)
ended false none change s = (raise os_error, s)
ended false (some n) change s = let (a, n') = change n in (ok a, record s { found = some n' })

-- A system call on the path
abbrev call : {A : Type 0} → (Node → A × Node) → Exec File A
call change s = ended (s.fails s.tick) s.found change (record s { tick = s.tick + 1 })

abbrev stat : Exec File Node
stat = call (λ n. (n, n))

abbrev chown : ℕ → ℕ → Exec File Unit
chown owner group = call (λ n. (tt, record n { owner = owner; group = group }))

abbrev chmod : ℕ → Exec File Unit
chmod mode = call (λ n. (tt, record n { mode = mode }))

-- `S_IRUSR | S_IWUSR | S_IRGRP | S_IWGRP`
abbrev group_mode : ℕ
group_mode = 256 + 128 + 32 + 16

abbrev mask_with : Option ℕ → Exec File Unit
mask_with none = pure tt
mask_with (some gid) = do st ← stat; chown st.owner gid; chmod group_mode

-- `grp.getgrnam(group).gr_gid`; `none` where it raises KeyError
mask_owning_group : (Text → Option ℕ) → Option Text → Exec File Unit
mask_owning_group getgrnam none = pure tt
mask_owning_group getgrnam (some []) = pure tt
mask_owning_group getgrnam (some (c ∷ name)) = mask_with (getgrnam (c ∷ name))

-- With a group that there is, and where a file stands at the path and no call fails, the file keeps
-- its owner, gets the group, and can be read and written by both alone.
mask_owning_group-masks :
    (getgrnam : Text → Option ℕ) (c : ℕ) (name : Text) (s : File) (n : Node) (gid : ℕ)
    → s.found ≡ some n
    → getgrnam (c ∷ name) ≡ some gid
    → ((i : ℕ) → s.fails i ≡ false)
    → (v : File) × (mask_owning_group getgrnam (some (c ∷ name)) s ≡ (ok tt, v))
      × (v.found ≡ some (record { owner = n.owner; group = gid; mode = group_mode }))
unfolding mask_owning_group
mask_owning_group-masks getgrnam c name s n gid there gid_is up =
    rw (gid_is, up s.tick, there, up (s.tick + 1), up (s.tick + 1 + 1)) (_, refl, refl)

-- ===== src/Address/Parse.antt =====
-- What `parse_recipient` accepts, and that it takes apart what was put together.
use mail_router.Prelude.{
  ℕ, ◌≡◌, ◌≢◌, refl, ap, sym, subst, ◌∙◌, Bool, true, false, Text, Option, none, some, List, [],
  ◌∷◌, ◌++◌, ◌==◌, drop, member, arith, Bool-cases, inl, inr,
}
use mathlib.Core.Option.{some-injective}
use mail_router.Python.{Python, or_none}
use mail_router.Lookup.{contains}
use mail_router.Address.{
  ParsedAddress, parse_recipient, parse_parts, finish, separate, rsplit, is_valid_ds_id, has_sub,
  dashes,
}
use mail_router.Address.Split.{scan, separate-scan}

rsplit-none : (c : ℕ) (s : Text) → member c s ≡ false → rsplit c s ≡ none
unfolding rsplit
rsplit-none c [] h = refl
rsplit-none c (d ∷ s) h = ground (arith, rsplit-none c s)

-- The last "@" splits, whatever stands before it.
pub rsplit-append : (c : ℕ) (l r : Text) → member c r ≡ false → rsplit c (l ++ c ∷ r) ≡ some (l, r)
unfolding rsplit
rsplit-append c [] r h = ground (arith, rsplit-none c r)
rsplit-append c (d ∷ l) r h = rw (rsplit-append c l r h)

abbrev pub ends_in_dash : Text → Bool
ends_in_dash [] = false
ends_in_dash (c ∷ []) = c == b'-'
ends_in_dash (c ∷ d ∷ s) = ends_in_dash (d ∷ s)

scan-plus :
    (s m : Text)
    → member b'+' s ≡ false
    → has_sub dashes s ≡ false
    → scan (s ++ b'+' ∷ m) ≡ (s, or_none m)
unfolding scan has_sub
scan-plus [] m p d = refl
scan-plus (c ∷ []) m p d = ground arith
scan-plus (c ∷ e ∷ s) m p d = ground (arith, scan-plus (e ∷ s) m)

scan-dashes :
    (s m : Text)
    → member b'+' s ≡ false
    → has_sub dashes s ≡ false
    → ends_in_dash s ≡ false
    → scan (s ++ b'-' ∷ b'-' ∷ m) ≡ (s, or_none m)
unfolding scan has_sub
scan-dashes [] m p d e = refl
scan-dashes (c ∷ []) m p d e = ground arith
scan-dashes (c ∷ f ∷ s) m p d e = ground (arith, scan-dashes (f ∷ s) m)

scan-plain : (s : Text) → member b'+' s ≡ false → has_sub dashes s ≡ false → scan s ≡ (s, none)
unfolding scan has_sub
scan-plain [] p d = refl
scan-plain (c ∷ s) p d = ground (arith, scan-plain s)

parse_split :
    (py : Python) (local_part domain : Text) (allowed : List Text) (ds : Text)
    (mailbox : Option Text)
    → member b'@' domain ≡ false
    → contains (py.lower domain) allowed ≡ true
    → is_valid_ds_id (py.lower ds) ≡ true
    → scan local_part ≡ (ds, mailbox)
    → parse_recipient py (local_part ++ b'@' ∷ domain) allowed
      ≡ some (record { ds_id = py.lower ds; mailbox = mailbox; domain = py.lower domain })
parse_split py local_part domain allowed ds mailbox at_sign allows valid parts =
    parts_of ∙ rw (allows, separate-scan local_part, parts, valid)
  where
    parts_of :
        parse_recipient py (local_part ++ b'@' ∷ domain) allowed
        ≡ parse_parts py allowed (some (local_part, domain))
    parts_of =
        unfold parse_recipient in
        ap (parse_parts py allowed) (rsplit-append b'@' local_part domain at_sign)

-- An address that is put together from an id, a separator, a mailbox and a domain is taken apart
-- into them, and so is one with no mailbox: the id and the domain in lower case, and an empty
-- mailbox as none. The id has no separator in it and does not end in a dash, the domain has no "@",
-- and both are accepted in lower case.
pub parse_recipient-append :
    (py : Python) (ds mailbox domain : Text) (allowed : List Text)
    → member b'+' ds ≡ false
    → has_sub dashes ds ≡ false
    → ends_in_dash ds ≡ false
    → member b'@' domain ≡ false
    → contains (py.lower domain) allowed ≡ true
    → is_valid_ds_id (py.lower ds) ≡ true
    → let address : Option Text → ParsedAddress =
        λ box. record { ds_id = py.lower ds; mailbox = box; domain = py.lower domain } in
      (parse_recipient py (ds ++ b'@' ∷ domain) allowed ≡ some (address none))
      × (parse_recipient py ((ds ++ b'+' ∷ mailbox) ++ b'@' ∷ domain) allowed
          ≡ some (address (or_none mailbox)))
      × (parse_recipient py ((ds ++ b'-' ∷ b'-' ∷ mailbox) ++ b'@' ∷ domain) allowed
          ≡ some (address (or_none mailbox)))
parse_recipient-append py ds mailbox domain allowed plus double last at_sign allows valid = (
  parse_split py ds domain allowed ds none at_sign allows valid (scan-plain ds plus double),
  parse_split py (ds ++ b'+' ∷ mailbox) domain allowed ds (or_none mailbox) at_sign allows valid
      (scan-plus ds mailbox plus double),
  parse_split py (ds ++ b'-' ∷ b'-' ∷ mailbox) domain allowed ds (or_none mailbox) at_sign allows
      valid (scan-dashes ds mailbox plus double last),
)

or_none-ne : (s : Text) → or_none s ≢ some []
or_none-ne [] h = cc
or_none-ne (c ∷ s) h = cc

scan-ne : (s : Text) → (scan s).1 ≢ some []
unfolding scan
scan-ne [] = λ h. cc
scan-ne (c ∷ s) = ground (arith, scan-ne s, or_none-ne s, or_none-ne (drop 1 s))

accepted_parts :
    (py : Python) (allowed : List Text) (parts : Option (Text × Text)) (a : ParsedAddress)
    → parse_parts py allowed parts ≡ some a
    → (contains a.domain allowed ≡ true) × (is_valid_ds_id a.ds_id ≡ true) × (a.mailbox ≢ some [])
accepted_parts py allowed none a h = cc
accepted_parts py allowed (some (l, d)) a h = elim (Bool-cases (contains (py.lower d) allowed)) [
  | inr e ↦ cc (rw e at h)
  | inl e ↦
      finished e (separate l) (rw e at h)
        (subst (λ x. x.1 ≢ some []) (sym (separate-scan l)) (scan-ne l))
]
  where
    finished :
        contains (py.lower d) allowed ≡ true
        → (x : Text × Option Text) → finish py (py.lower d) x ≡ some a
        → x.1 ≢ some []
        → (contains a.domain allowed ≡ true)
          × (is_valid_ds_id a.ds_id ≡ true)
          × (a.mailbox ≢ some [])
    finished e (ds, box) k ne = elim (Bool-cases (is_valid_ds_id (py.lower ds))) [
      | inr v ↦ cc (rw v at k)
      | inl v ↦
          subst
            (λ (b : ParsedAddress).
              (contains b.domain allowed ≡ true)
              × (is_valid_ds_id b.ds_id ≡ true)
              × (b.mailbox ≢ some []))
            (some-injective _ _ (rw v at k)) (e, v, ne)
    ]

-- What is accepted lies in an allowed domain, has a valid id, and an own mailbox or none.
pub parse_recipient-accepts :
    (py : Python) (email : Text) (allowed : List Text) (a : ParsedAddress)
    → parse_recipient py email allowed ≡ some a
    → (contains a.domain allowed ≡ true) × (is_valid_ds_id a.ds_id ≡ true) × (a.mailbox ≢ some [])
unfolding parse_recipient
parse_recipient-accepts py email allowed a h = accepted_parts py allowed (rsplit b'@' email) a h

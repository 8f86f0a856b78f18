-- ===== src/Address.antt =====
-- mail_router/address.py: the ids of data sources, and the parts of a recipient's address.
pub mod Pattern
pub mod Split
pub mod Parse
pub mod Tests
use mail_router.Prelude.{
  ℕ, zero, suc, ◌+◌, Bool, true, false, not, ◌&&◌, ◌||◌, Text, Option, none, some, List, [], ◌∷◌,
  ◌++◌, codes, ltb, leb, ◌==◌, starts_with, take, drop, select, if◌then◌else◌,
}
use mail_router.Python.{Python, or_none}
use mail_router.Lookup.{contains}
use Pattern.{Regex, one, times, up_to, opt, seq, dollar, matches}

pub record ParsedAddress : Type 0 where
  pub ds_id : Text
  pub mailbox : Option Text
  pub domain : Text

abbrev pub is_alnum : ℕ → Bool
is_alnum c = (leb b'a' c && leb c b'z') || (leb b'0' c && leb c b'9')

abbrev pub is_inner : ℕ → Bool
is_inner c = is_alnum c || c == b'-'

abbrev pub is_dash : ℕ → Bool
is_dash c = c == b'-'

abbrev pub hash_id_re : Regex
hash_id_re = seq (times 4 is_alnum) (
    seq (one is_dash) (
      seq (times 4 is_alnum) (
        seq (one is_dash)
          (seq (times 4 is_alnum) (seq (one is_dash) (seq (times 4 is_alnum) dollar))))))

abbrev pub web_id_re : Regex
web_id_re = seq (one is_alnum) (seq (opt (seq (up_to 61 is_inner) (one is_alnum))) dollar)

-- `sub in s`
unfoldable pub has_sub : Text → Text → Bool
has_sub sub [] = starts_with sub []
has_sub sub (c ∷ s) = if starts_with sub (c ∷ s) then true else has_sub sub s

abbrev pub dashes : Text
dashes = b'-' ∷ b'-' ∷ []

abbrev is_nil : Text → Bool
is_nil [] = true
is_nil (c ∷ s) = false

unfoldable pub is_valid_ds_id : Text → Bool
unfolding has_sub matches
is_valid_ds_id ds_id =
    if is_nil ds_id
    then false
    else if matches hash_id_re ds_id
    then true
    else if not (matches web_id_re ds_id)
    then false
    else not (has_sub dashes ds_id)

-- What `str.find` returns: a position, or -1.
pub data Index : Type 0 where
  at : ℕ → Index
  minus_one : Index

abbrev pub bump : Index → Index
bump (at n) = at (suc n)
bump minus_one = minus_one

-- `s.find(sub)`
pub find : Text → Text → Index
find sub [] = if starts_with sub [] then at 0 else minus_one
find sub (c ∷ s) = let rest = bump (find sub s) in if starts_with sub (c ∷ s) then at 0 else rest

-- `i >= 0`, `i < 0`, `a < b`, `a == b`, `min(a, b)` and the use of `i >= 0` as a position
abbrev pub is_found : Index → Bool
is_found (at n) = true
is_found minus_one = false

abbrev pub index_lt : Index → Index → Bool
index_lt (at a) (at b) = ltb a b
index_lt (at a) minus_one = false
index_lt minus_one (at b) = true
index_lt minus_one minus_one = false

abbrev pub index_eq : Index → Index → Bool
index_eq (at a) (at b) = a == b
index_eq minus_one minus_one = true
index_eq _ _ = false

abbrev pub index_min : Index → Index → Index
index_min a b = if index_lt b a then b else a

abbrev pub minimum : Index → List Index → Index
minimum a [] = a
minimum a (b ∷ bs) = minimum (index_min a b) bs

abbrev pub position : Index → ℕ
position (at n) = n
position minus_one = 0

abbrev pub cut_at : Text → Index → Index → List Index → Text × Option Text
cut_at local_part plus_idx dashes_idx [] = (local_part, none)
cut_at local_part plus_idx dashes_idx (i ∷ separators) =
    let sep_idx = minimum i separators in
    let sep_len : ℕ =
      if index_eq sep_idx dashes_idx && (not (is_found plus_idx) || index_lt dashes_idx plus_idx)
      then 2
      else 1 in
    (take (position sep_idx) local_part, or_none (drop (position sep_idx + sep_len) local_part))

-- The id and the mailbox of a local part, with the positions of the separators
abbrev pub cut : Index → Index → Text → Text × Option Text
cut plus_idx dashes_idx local_part =
    cut_at local_part plus_idx dashes_idx (select is_found (plus_idx ∷ dashes_idx ∷ []))

unfoldable pub separate : Text → Text × Option Text
unfolding find
separate local_part = cut (find (b'+' ∷ []) local_part) (find dashes local_part) local_part

abbrev pub split_before : ℕ → Option (Text × Text) → Bool → Text → Option (Text × Text)
split_before c (some (l, r)) here rest = some (c ∷ l, r)
split_before c none here rest = if here then some ([], rest) else none

-- `s.rsplit(sep, 1)`: none if `sep` does not occur
unfoldable pub rsplit : ℕ → Text → Option (Text × Text)
rsplit sep [] = none
rsplit sep (c ∷ s) = split_before c (rsplit sep s) (c == sep) s

abbrev pub finish : Python → Text → Text × Option Text → Option ParsedAddress
finish py domain (ds_id, mailbox) =
    if is_valid_ds_id (py.lower ds_id)
    then some (record { ds_id = py.lower ds_id; mailbox = mailbox; domain = domain })
    else none

abbrev pub parse_parts : Python → List Text → Option (Text × Text) → Option ParsedAddress
parse_parts py allowed none = none
parse_parts py allowed (some (local_part, domain)) =
    if contains (py.lower domain) allowed
    then finish py (py.lower domain) (separate local_part)
    else none

unfoldable pub parse_recipient : Python → Text → List Text → Option ParsedAddress
unfolding rsplit separate is_valid_ds_id
parse_recipient py email allowed = parse_parts py allowed (rsplit b'@' email)

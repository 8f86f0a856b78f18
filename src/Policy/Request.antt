-- ===== src/Policy/Request.antt =====
-- A request as Postfix prints it, read back by `_read_request`.
use mathlib.Core.List.{reverse, reverse-append, reverse-reverse}
use mail_router.Prelude.{
  ℕ, ◌≡◌, refl, ◌∙◌, ap, sym, subst, Bool, true, false, not, Text, some, List, [], ◌∷◌, ◌++◌, map,
  codes, member, All, arith,
}
use mail_router.Prelude.Dict
use mail_router.Prelude.Dict.{Dict}
use mail_router.Exec.{ok}
use mail_router.Python.{strip, rstrip_chars, drop_while}
use mail_router.Policy.{Incoming, line, partition, read_request, is_nil}

abbrev pub newlines : Text
newlines = codes "\r\n"

-- The last character is kept by `rstrip("\r\n")`.
abbrev pub is_kept : Text → Bool
is_kept [] = true
is_kept (c ∷ []) = not (member c newlines)
is_kept (c ∷ d ∷ s) = is_kept (d ∷ s)

abbrev pub print_pair : Text × Text → Incoming
print_pair (k, v) = line ((k ++ b'=' ∷ v) ++ b'\n' ∷ [])

abbrev pub blank : Incoming
blank = line (b'\n' ∷ [])

abbrev pub print_request : List (Text × Text) → List Incoming
print_request pairs = map print_pair pairs ++ blank ∷ []

-- A pair that can be printed on a line: no spaces around the key and the value.
abbrev pub IsPair : Text × Text → Type 0
IsPair (k, v) = (strip k ≡ k) × (strip v ≡ v) × (member b'=' k ≡ false) × (is_kept v ≡ true)

abbrev pub insert_all : Dict Text → List (Text × Text) → Dict Text
insert_all attrs [] = attrs
insert_all attrs ((k, v) ∷ pairs) = insert_all (Dict.insert k v attrs) pairs

partition-append :
    (sep : ℕ) (k v : Text) → member sep k ≡ false → partition sep (k ++ sep ∷ v) ≡ some (k, v)
unfolding partition
partition-append sep [] v h = ground arith
partition-append sep (c ∷ k) v h = ground (arith, partition-append sep k v)

is_kept-append : (k v : Text) (c : ℕ) → is_kept (k ++ c ∷ v) ≡ is_kept (c ∷ v)
is_kept-append [] v c = refl
is_kept-append (a ∷ []) v c = refl
is_kept-append (a ∷ b ∷ k) v c = is_kept-append (b ∷ k) v c

-- A text that is not empty, by its last character.
snoc :
    (c : ℕ) (s : Text)
    → is_kept (c ∷ s) ≡ true
    → (i : Text) × (l : ℕ) × (c ∷ s ≡ i ++ l ∷ []) × (member l newlines ≡ false)
snoc c [] h = ([], c, refl, ground arith)
snoc c (d ∷ s) h = let (i, l, e, k) = snoc d s h in (c ∷ i, l, ap (◌∷◌ c) e, k)

rstrip-newline :
    (i : Text) (l : ℕ)
    → member l newlines ≡ false
    → rstrip_chars newlines ((i ++ l ∷ []) ++ b'\n' ∷ []) ≡ i ++ l ∷ []
rstrip-newline i l h =
    stripped ((i ++ l ∷ []) ++ b'\n' ∷ []) _
      (reverse-append (i ++ l ∷ []) (b'\n' ∷ []) ∙ ap (◌∷◌ b'\n') (reverse-append i (l ∷ [])))
    ∙ sym (ap reverse (reverse-append i (l ∷ [])))
    ∙ reverse-reverse (i ++ l ∷ [])
  where
    dropped : (r : Text) → drop_while (λ c. member c newlines) (b'\n' ∷ l ∷ r) ≡ l ∷ r
    dropped r = unfold drop_while in rw h

    stripped : (s r : Text) → reverse s ≡ b'\n' ∷ l ∷ r → rstrip_chars newlines s ≡ reverse (l ∷ r)
    stripped s r e =
        unfold rstrip_chars in ap reverse (ap (drop_while (λ c. member c newlines)) e ∙ dropped r)

line-kept :
    (t : Text) → is_nil t ≡ false → is_kept t ≡ true → rstrip_chars newlines (t ++ b'\n' ∷ []) ≡ t
line-kept [] h k = cc
line-kept (c ∷ s) h k =
    let (i, l, e, m) = snoc c s k in
    subst (λ t. rstrip_chars newlines (t ++ b'\n' ∷ []) ≡ t) (sym e) (rstrip-newline i l m)

nonempty : (k v : Text) → is_nil (k ++ b'=' ∷ v) ≡ false
nonempty [] v = refl
nonempty (c ∷ k) v = refl

is_kept-value : (v : Text) → is_kept v ≡ true → is_kept (b'=' ∷ v) ≡ true
is_kept-value [] h = refl
is_kept-value (c ∷ v) h = h

-- One line is read as its pair.
read-pair :
    (k v : Text) (attrs : Dict Text) (rest : List Incoming)
    → IsPair (k, v)
    → read_request attrs (print_pair (k, v) ∷ rest) ≡ read_request (Dict.insert k v attrs) rest
unfolding read_request
read-pair k v attrs rest (sk, sv, plain, kept) = rw (
  line-kept (k ++ b'=' ∷ v) (nonempty k v) (is_kept-append k v b'=' ∙ is_kept-value v kept),
  partition-append b'=' k v plain,
  sk,
  sv,
  nonempty k v,
)

-- A printed request is read back, whatever comes after it.
pub read_request-print :
    (pairs : List (Text × Text)) (attrs : Dict Text) (rest : List Incoming)
    → All IsPair pairs
    → read_request attrs (print_request pairs ++ rest) ≡ (ok (some (insert_all attrs pairs)), rest)
read_request-print [] attrs rest h = unfold read_request in refl
read_request-print ((k, v) ∷ pairs) attrs rest (p, ps) =
    read-pair k v attrs (print_request pairs ++ rest) p
    ∙ read_request-print pairs (Dict.insert k v attrs) rest ps

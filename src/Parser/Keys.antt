-- ===== src/Parser/Keys.antt =====
-- Which copies of a mail share an idempotency key.
use mail_router.Prelude.{ℕ, ◌≡◌, false, Text, [], ◌∷◌, ◌++◌, member, arith}
use mail_router.Python.{Python}
use mail_router.Parser.{key_payload, idempotency_key}

-- The first separator ends the first part.
append-injective :
    (c : ℕ) (l l' r r' : Text)
    → member c l ≡ false
    → member c l' ≡ false
    → l ++ c ∷ r ≡ l' ++ c ∷ r'
    → (l ≡ l') × (r ≡ r')
append-injective c [] [] r r' h h' e = ground arith
append-injective c [] (d ∷ l') r r' h h' e = ground arith
append-injective c (d ∷ l) [] r r' h h' e = ground arith
append-injective c (d ∷ l) (d' ∷ l') r r' h h' e = ground (arith, append-injective c l l' r r')

-- If the hash does not collide on what is hashed, then two copies share their key only if the domain
-- in lower case, the local part and the Message-ID are the same; a domain and a local part have no
-- "/" in them.
pub idempotency_key-injective :
    (sha256 : Text → Text) (py : Python) (d d' l l' mid mid' : Text)
    → (sha256 (key_payload py d l mid) ≡ sha256 (key_payload py d' l' mid')
        → key_payload py d l mid ≡ key_payload py d' l' mid')
    → member b'/' (py.lower d) ≡ false
    → member b'/' (py.lower d') ≡ false
    → member b'/' l ≡ false
    → member b'/' l' ≡ false
    → idempotency_key sha256 py d l mid ≡ idempotency_key sha256 py d' l' mid'
    → (py.lower d ≡ py.lower d') × (l ≡ l') × (mid ≡ mid')
idempotency_key-injective sha256 py d d' l l' mid mid' no_collision nd nd' nl nl' e =
    let (domains, rest) =
      append-injective b'/' (py.lower d) (py.lower d') (l ++ b'/' ∷ mid) (l' ++ b'/' ∷ mid') nd nd'
        (no_collision e) in
    let (locals, ids) = append-injective b'/' l l' mid mid' nl nl' rest in (domains, locals, ids)

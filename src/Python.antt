-- ===== src/Python.antt =====
-- What the code uses of Python's texts beyond comparison. Case mapping by Unicode and the `str()` of
-- a value that is no text are given by the interpreter.
use mail_router.Prelude.{
  ℕ, zero, suc, ◌+◌, ◌/◌, ◌%◌, Bool, true, false, ◌||◌, ◌&&◌, Text, Option, none, some, [], ◌∷◌,
  ◌++◌, ltb, leb, ◌==◌, member, if◌then◌else◌,
}
use mathlib.Core.List.{reverse}
use mail_router.Json.{Json, str}

pub record Python : Type 0 where
  -- `s.lower()`
  pub lower : Text → Text
  -- `str(value)` of what is no text
  pub str_of : Json → Text

-- `str(value)`, `f"{value}"`
abbrev pub to_str : Python → Json → Text
to_str py (str s) = s
to_str py v = py.str_of v

decimal_fuel : ℕ → ℕ → Text
decimal_fuel zero n = []
decimal_fuel (suc f) n =
    let front = decimal_fuel f (n / 10) in
    if ltb n 10 then (48 + n) ∷ [] else front ++ (48 + n % 10) ∷ []

-- `str(n)` of a natural number; `n + 1` rounds are enough for its digits.
unfoldable pub decimal : ℕ → Text
unfolding decimal_fuel
decimal n = decimal_fuel (suc n) n

-- `str.isspace` of one character
abbrev pub is_space : ℕ → Bool
is_space c =
    (leb 0x09 c && leb c 0x0d)
    || (leb 0x1c c && leb c 0x20)
    || c == 0x85
    || c == 0xa0
    || c == 0x1680
    || (leb 0x2000 c && leb c 0x200a)
    || c == 0x2028
    || c == 0x2029
    || c == 0x202f
    || c == 0x205f
    || c == 0x3000

unfoldable pub drop_while : (ℕ → Bool) → Text → Text
drop_while p [] = []
drop_while p (c ∷ s) = if p c then drop_while p s else c ∷ s

-- `s.lstrip`, `s.rstrip` and `s.strip` of the characters that pass a test
pub rstrip_by : (ℕ → Bool) → Text → Text
unfolding drop_while
rstrip_by p s = reverse (drop_while p (reverse s))

pub strip_by : (ℕ → Bool) → Text → Text
unfolding drop_while rstrip_by
strip_by p s = rstrip_by p (drop_while p s)

unfoldable pub strip : Text → Text
unfolding strip_by
strip = strip_by is_space

unfoldable pub strip_chars : Text → Text → Text
unfolding strip_by
strip_chars chars = strip_by (λ c. member c chars)

unfoldable pub rstrip_chars : Text → Text → Text
unfolding rstrip_by
rstrip_chars chars = rstrip_by (λ c. member c chars)

-- `bool(s)` of an optional text
abbrev pub has_text : Option Text → Bool
has_text none = false
has_text (some []) = false
has_text (some (c ∷ s)) = true

-- `s or None`
abbrev pub or_none : Text → Option Text
or_none [] = none
or_none (c ∷ s) = some (c ∷ s)

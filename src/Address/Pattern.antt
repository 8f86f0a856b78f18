-- ===== src/Address/Pattern.antt =====
-- The regular expressions of mail_router/address.py and a backtracking matcher: `Pattern.match` on
-- the constructs that they use.
use mail_router.Prelude.{ℕ, zero, suc, Bool, true, false, ◌&&◌, ◌||◌, Text, [], ◌∷◌, ◌==◌}

pub data Regex : Type 0 where
  -- a character class, `[…]`
  one : (ℕ → Bool) → Regex
  -- `[…]{n}` and `[…]{0,n}`
  times : ℕ → (ℕ → Bool) → Regex
  up_to : ℕ → (ℕ → Bool) → Regex
  -- `(?:…)?`
  opt : Regex → Regex
  seq : Regex → Regex → Regex
  -- `$`: the end, or a newline at the end
  dollar : Regex

-- What follows a part is tested by `k`.
abbrev pub match_one : (ℕ → Bool) → (Text → Bool) → Text → Bool
match_one p k [] = false
match_one p k (c ∷ s) = p c && k s

pub match_times : ℕ → (ℕ → Bool) → (Text → Bool) → Text → Bool
match_times zero p k s = k s
match_times (suc n) p k s = match_one p (match_times n p k) s

pub match_up_to : ℕ → (ℕ → Bool) → (Text → Bool) → Text → Bool
match_up_to zero p k s = k s
match_up_to (suc n) p k s = match_one p (match_up_to n p k) s || k s

abbrev pub at_end : Text → Bool
at_end [] = true
at_end (c ∷ []) = c == 10
at_end (c ∷ d ∷ s) = false

pub match_with : Regex → (Text → Bool) → Text → Bool
unfolding match_times match_up_to
match_with (one p) k s = match_one p k s
match_with (times n p) k s = match_times n p k s
match_with (up_to n p) k s = match_up_to n p k s
match_with (opt r) k s = match_with r k s || k s
match_with (seq r q) k s = match_with r (match_with q k) s
match_with dollar k s = at_end s && k s

-- `re.match(s)`: the expressions begin with `^`, and `match` starts there anyhow.
unfoldable pub matches : Regex → Text → Bool
unfolding match_with
matches r s = match_with r (λ _. true) s

-- ===== src/Result.antt =====
-- Pure Python code that may raise: the exceptions and the outcomes, and their chaining.
use mathlib.Core.Path.{◌≡◌, refl}

-- The classes of the exceptions that the code can meet: `sqlite3.Error`, TypeError, IndexError,
-- AttributeError, KeyError, ValueError (also `json.JSONDecodeError` and the errors of encodings),
-- ConnectionResetError or BrokenPipeError, another OSError, and any other.
pub data Error : Type 0 where
  database type_error index_error attribute_error key_error value_error : Error
  connection_error os_error other_error : Error

pub data Result (A : Type 0) : Type 0 where
  ok : A → Result A
  raise : Error → Result A

infixl 5 ◌>>=◌ ◌>>◌
abbrev pub ◌>>=◌ : {A B : Type 0} → Result A → (A → Result B) → Result B
ok a >>= f = f a
raise e >>= f = raise e

abbrev pub ◌>>◌ : {A B : Type 0} → Result A → Result B → Result B
m >> k = m >>= λ _. k

-- A chain that returned: both parts did.
pub >>=-eq-ok :
    {A B : Type 0} (r : Result A) (next : A → Result B) {last : B}
    → (r >>= next) ≡ ok last
    → (first : A) × (r ≡ ok first) × (next first ≡ ok last)
>>=-eq-ok (ok first) next returned = (first, refl, returned)
>>=-eq-ok (raise e) next returned = cc

-- The same, for a conclusion from both parts.
pub >>=-returned :
    {A B P : Type 0} (r : Result A) (next : A → Result B) {last : B}
    → ((first : A) → r ≡ ok first → next first ≡ ok last → P)
    → (r >>= next) ≡ ok last
    → P
>>=-returned (ok first) next use_parts returned = use_parts first refl returned
>>=-returned (raise e) next use_parts returned = cc

-- ===== src/Json.antt =====
-- What `json.loads` returns, as Python's dynamic values: which are true, and what `.get` does.
use mail_router.Prelude.{
  Bool, true, false, Text, Option, none, some, [], ◌∷◌, text_eq, if◌then◌else◌,
}
use mail_router.Result.{Result, ok, raise, attribute_error}

mutual
  -- A number is its text under `str()`, and whether it is zero.
  pub data Json : Type 0 where
    null : Json
    bool : Bool → Json
    num : Text → Bool → Json
    str : Text → Json
    arr : Items → Json
    obj : Fields → Json

  pub data Items : Type 0 where
    nil : Items
    cons : Json → Items → Items

  -- A dict has each key once.
  pub data Fields : Type 0 where
    end : Fields
    field : Text → Json → Fields → Fields

-- `bool(value)`
abbrev pub is_true : Json → Bool
is_true null = false
is_true (bool b) = b
is_true (num _ true) = false
is_true (num _ false) = true
is_true (str []) = false
is_true (str (c ∷ s)) = true
is_true (arr nil) = false
is_true (arr (cons _ _)) = true
is_true (obj end) = false
is_true (obj (field _ _ _)) = true

abbrev pub is_dict : Json → Bool
is_dict (obj _) = true
is_dict _ = false

abbrev pub field_of : Text → Fields → Option Json
field_of k end = none
field_of k (field j v fs) = if text_eq k j then some v else field_of k fs

abbrev pub or_else : Option Json → Json → Json
or_else none d = d
or_else (some v) d = v

-- `value.get(key, default)`: only a dict has the method.
abbrev pub get : Json → Text → Json → Result Json
get (obj fs) k d = ok (or_else (field_of k fs) d)
get _ k d = raise attribute_error

-- `a or b`
abbrev pub either : Json → Json → Json
either a b = if is_true a then a else b

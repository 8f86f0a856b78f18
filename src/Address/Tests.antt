-- ===== src/Address/Tests.antt =====
-- Addresses, taken apart.
use mail_router.Prelude.{
  ◌≡◌, ◌≢◌, refl, true, false, Option, none, some, Text, List, [], ◌∷◌, ◌++◌, codes,
}
use mail_router.Python.{Python, or_none}
use mail_router.Lookup.{contains}
use mail_router.Address.{ParsedAddress, parse_recipient, is_valid_ds_id, separate, has_sub, dashes}
use mail_router.Address.Split.{scan, separate-scan}
use mail_router.Address.Parse.{parse_recipient-append, parse_recipient-accepts}

-- An interpreter in which all texts are in lower case.
abbrev py : Python
py = record { lower = λ s. s; str_of = λ _. [] }

abbrev hosts : List Text
hosts = codes "shpd.cz" ∷ []

demo-IsValid : is_valid_ds_id (codes "demo-1") ≡ true
unfolding is_valid_ds_id
demo-IsValid = refl

double-IsValid : is_valid_ds_id (codes "demo--1") ≡ false
unfolding is_valid_ds_id
double-IsValid = refl

-- "$" matches before a newline at the end.
newline-IsValid : is_valid_ds_id (codes "demo\n") ≡ true
unfolding is_valid_ds_id
newline-IsValid = refl

separate-scan_example : separate (codes "demo--a+b") ≡ scan (codes "demo--a+b")
separate-scan_example = separate-scan (codes "demo--a+b")

no_dashes : has_sub dashes (codes "demo") ≡ false
unfolding has_sub
no_dashes = refl

valid_demo : is_valid_ds_id (codes "demo") ≡ true
unfolding is_valid_ds_id
valid_demo = refl

abbrev demo : Option Text → ParsedAddress
demo box = record { ds_id = codes "demo"; mailbox = box; domain = codes "shpd.cz" }

parse_recipient-append_example :
    (parse_recipient py (codes "demo" ++ b'@' ∷ codes "shpd.cz") hosts ≡ some (demo none))
    × (parse_recipient py ((codes "demo" ++ b'+' ∷ codes "in") ++ b'@' ∷ codes "shpd.cz") hosts
        ≡ some (demo (or_none (codes "in"))))
    × (parse_recipient py
          ((codes "demo" ++ b'-' ∷ b'-' ∷ codes "in") ++ b'@' ∷ codes "shpd.cz")
          hosts
        ≡ some (demo (or_none (codes "in"))))
parse_recipient-append_example =
    parse_recipient-append py (codes "demo") (codes "in") (codes "shpd.cz") hosts refl no_dashes
      refl refl refl valid_demo

parsed_demo : parse_recipient py (codes "demo+in@shpd.cz") hosts ≡ some (demo (some (codes "in")))
unfolding parse_recipient
parsed_demo = refl

parse_recipient-accepts_example :
    (contains (codes "shpd.cz") hosts ≡ true)
    × (is_valid_ds_id (codes "demo") ≡ true)
    × (◌≢◌ {A = Option Text} (some (codes "in")) (some []))
parse_recipient-accepts_example =
    parse_recipient-accepts py (codes "demo+in@shpd.cz") hosts (demo (some (codes "in")))
      parsed_demo

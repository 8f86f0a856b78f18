-- ===== src/Config/Tests.antt =====
-- Configuration files.
use mail_router.Prelude.{◌≡◌, refl, Text, codes}
use mail_router.Result.{Result, ok, raise, type_error, key_error}
use mail_router.Json.{Json, num, str, obj, Fields, end, field}
use mail_router.Python.{decimal}
use mail_router.Config.{Reader, Config, load}
use mail_router.Config.Defaults.{IsReader, config_defaults, load-defaults}

abbrev read_number : Json → Result Text
read_number (num digits _) = ok digits
read_number _ = raise type_error

abbrev text_in : Json → Text
text_in (str s) = s
text_in _ = codes ""

-- Numbers are read as their texts.
abbrev pub reader : Reader
reader = record {
  Int = Text;
  Float = Text;
  int = read_number;
  float = read_number;
  to_str = text_in;
  upper = λ s. s;
}

pub reader-IsReader : IsReader reader
reader-IsReader = record {
  int_of = decimal;
  float_of = decimal;
  int_lem = λ n. refl;
  float_lem = λ n. refl;
  to_str_lem = λ s. refl;
  upper_info = refl;
}

abbrev pub minimal : Fields
minimal = field (codes "policy_socket") (str (codes "/run/p")) (
    field (codes "lmtp_socket") (str (codes "/run/l")) (
      field (codes "queue_db") (str (codes "/q.db")) (
        field (codes "lookup_file") (str (codes "/l.json"))
          (field (codes "worker") (obj end) end))))

load-defaults_example :
    load reader (obj minimal)
    ≡ ok (
        config_defaults reader reader-IsReader
          (codes "/run/p")
          (codes "/run/l")
          (codes "/q.db")
          (codes "/l.json"))
load-defaults_example =
    load-defaults reader reader-IsReader minimal (codes "/run/p") (codes "/run/l") (codes "/q.db")
      (codes "/l.json") refl refl refl refl refl refl refl refl refl

abbrev pub loaded : Config reader
loaded =
    config_defaults reader reader-IsReader (codes "/run/p") (codes "/run/l") (codes "/q.db")
      (codes "/l.json")

pub load-minimal : load reader (obj minimal) ≡ ok loaded
unfolding load reader-IsReader decimal
load-minimal = refl

-- Without a lookup file there is no configuration.
load-missing :
    load reader (
      obj (
        field (codes "policy_socket") (str (codes "/run/p")) (
          field
            (codes "lmtp_socket")
            (str (codes "/run/l"))
            (field (codes "queue_db") (str (codes "/q.db")) end))))
    ≡ raise key_error
unfolding load
load-missing = refl

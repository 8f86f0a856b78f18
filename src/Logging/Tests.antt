-- ===== src/Logging/Tests.antt =====
-- A line of the log.
use mail_router.Prelude.{◌≡◌, refl, Text, none, some, [], ◌∷◌, codes}
use mail_router.Prelude.Dict
use mail_router.Logging.{LogRecord, format, base, value_for, reserved, format-get}

abbrev as_text : Text → Text
as_text s = s

-- A call with `extra={"id": …, "level": …}`.
abbrev entry : LogRecord Text as_text
entry = record {
  time = codes "2026-01-02T12:00:00+00:00";
  levelname = codes "INFO";
  name = codes "mail_router.worker";
  message = codes "delivered";
  exception = none;
  attributes =
      (codes "msg", codes "delivered")
      ∷ (codes "id", codes "7")
      ∷ (codes "level", codes "high")
      ∷ [];
}

format-get_example :
    Dict.get (codes "id") (format Text as_text entry)
    ≡ value_for Text as_text reserved (codes "id") entry.attributes (base Text as_text entry)
format-get_example = format-get Text as_text entry (codes "id") (refl, (refl, (refl, tt)))

id-kept : Dict.get (codes "id") (format Text as_text entry) ≡ some (codes "7")
unfolding format
id-kept = refl

-- A value called `level` takes the place of the record's level.
level-replaced : Dict.get (codes "level") (format Text as_text entry) ≡ some (codes "high")
unfolding format
level-replaced = refl

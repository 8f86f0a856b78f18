-- ===== src/Parser/Tests.antt =====
-- Keys of two copies.
use mail_router.Prelude.{◌≡◌, refl, codes, [], map, leb, ◌+◌, ◌&&◌, if◌then◌else◌}
use mail_router.Python.{Python}
use mail_router.Parser.Keys.{idempotency_key-injective}

abbrev interpreter : Python
interpreter = record {
  lower = map (λ c. if leb b'A' c && leb c b'Z' then c + 32 else c);
  str_of = λ _. [];
}

idempotency_key-injective_example :
    (interpreter.lower (codes "Shpd.CZ") ≡ interpreter.lower (codes "shpd.cz"))
    × (codes "demo" ≡ codes "demo")
    × (codes "<m1>" ≡ codes "<m1>")
idempotency_key-injective_example =
    idempotency_key-injective (λ s. s) interpreter (codes "Shpd.CZ") (codes "shpd.cz")
      (codes "demo") (codes "demo") (codes "<m1>") (codes "<m1>") (λ e. e) refl refl refl refl refl

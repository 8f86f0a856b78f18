-- ===== src/Clock/Tests.antt =====
-- Points of time, printed.
use mail_router.Prelude.{◌≡◌, refl, true, codes}
use mail_router.Clock.{DateTime, isoformat, add_seconds}

abbrev morning : DateTime
morning = record {
  year = 2026;
  month = 2;
  day = 28;
  hour = 23;
  minute = 59;
  second = 30;
  microsecond = 250;
  aware = true;
}

morning-text : isoformat morning ≡ codes "2026-02-28 23:59:30.000250+00:00"
unfolding isoformat
morning-text = refl

morning-later : isoformat (add_seconds 60 morning) ≡ codes "2026-03-01 00:00:30.000250+00:00"
unfolding isoformat add_seconds
morning-later = refl

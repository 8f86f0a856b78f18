-- ===== src/Clock.antt =====
-- Points of time as the program uses `datetime` (mail_router/queue.py, mail_router/worker.py): in
-- UTC, on the proleptic Gregorian calendar, with or without the zone attached. What Python refuses
-- past year 9999 is not modelled: arithmetic here does not stop.
pub mod Print
pub mod Tests
use Prim.Native.Nat.{◌^◌}
use mail_router.Prelude.{
  ℕ, zero, suc, ◌+◌, ◌-◌, ◌*◌, ◌/◌, ◌%◌, ◌≤◌, ◌<◌, Bool, true, false, ◌&&◌, ◌||◌, not, Text, [],
  ◌∷◌, ◌++◌, codes, ltb, leb, ◌==◌, if◌then◌else◌,
}

-- `aware` says whether the value carries the zone UTC or none.
pub record DateTime : Type 0 where
  pub year : ℕ
  pub month : ℕ
  pub day : ℕ
  pub hour : ℕ
  pub minute : ℕ
  pub second : ℕ
  pub microsecond : ℕ
  pub aware : Bool

pub is_leap : ℕ → Bool
is_leap y = (y % 4 == 0 && not (y % 100 == 0)) || y % 400 == 0

pub days_in_month : ℕ → ℕ → ℕ
unfolding is_leap
days_in_month y m =
    if m == 2
    then (if is_leap y then 29 else 28)
    else if m == 4 || m == 6 || m == 9 || m == 11
    then 30
    else 31

pub next_day : DateTime → DateTime
next_day t =
    if ltb t.day (days_in_month t.year t.month)
    then record t { day = t.day + 1 }
    else if ltb t.month 12
    then record t { month = t.month + 1; day = 1 }
    else record t { year = t.year + 1; month = 1; day = 1 }

pub previous_day : DateTime → DateTime
previous_day t =
    if ltb 1 t.day
    then record t { day = t.day - 1 }
    else if ltb 1 t.month
    then record t { month = t.month - 1; day = days_in_month t.year (t.month - 1) }
    else record t { year = t.year - 1; month = 12; day = 31 }

pub later_days : ℕ → DateTime → DateTime
later_days zero t = t
later_days (suc n) t = later_days n (next_day t)

pub earlier_days : ℕ → DateTime → DateTime
earlier_days zero t = t
earlier_days (suc n) t = earlier_days n (previous_day t)

abbrev pub second_of_day : DateTime → ℕ
second_of_day t = t.hour * 3600 + t.minute * 60 + t.second

abbrev pub at_second : ℕ → DateTime → DateTime
at_second s t = record t { hour = s / 3600; minute = s % 3600 / 60; second = s % 60 }

-- `t + timedelta(seconds=n)`
pub add_seconds : ℕ → DateTime → DateTime
unfolding later_days next_day days_in_month
add_seconds n t = let s = second_of_day t + n in later_days (s / 86400) (at_second (s % 86400) t)

-- `t - timedelta(days=n)`
unfoldable pub sub_days : ℕ → DateTime → DateTime
unfolding earlier_days previous_day days_in_month
sub_days = earlier_days

-- `t.replace(microsecond=0)`, `t.replace(tzinfo=None)`, `t.replace(tzinfo=UTC)`
abbrev pub whole_second : DateTime → DateTime
whole_second t = record t { microsecond = 0 }

abbrev pub to_naive : DateTime → DateTime
to_naive t = record t { aware = false }

abbrev pub to_aware : DateTime → DateTime
to_aware t = record t { aware = true }

abbrev pub pad2 : ℕ → Text
pad2 n = (48 + n / 10) ∷ (48 + n % 10) ∷ []

abbrev pub pad4 : ℕ → Text
pad4 n = pad2 (n / 100) ++ pad2 (n % 100)

abbrev pub pad6 : ℕ → Text
pad6 n = pad4 (n / 100) ++ pad2 (n % 100)

abbrev pub zone_text : Bool → Text
zone_text b = if b then codes "+00:00" else []

abbrev pub fraction_text : ℕ → Text
fraction_text us = if us == 0 then [] else b'.' ∷ pad6 us

-- What `t.isoformat(sep=" ")` prints, from the named field on.
abbrev pub tail_text : DateTime → Text
tail_text t = fraction_text t.microsecond ++ zone_text t.aware

abbrev pub second_text : DateTime → Text
second_text t = pad2 t.second ++ tail_text t

abbrev pub minute_text : DateTime → Text
minute_text t = pad2 t.minute ++ b':' ∷ second_text t

abbrev pub hour_text : DateTime → Text
hour_text t = pad2 t.hour ++ b':' ∷ minute_text t

abbrev pub day_text : DateTime → Text
day_text t = pad2 t.day ++ b' ' ∷ hour_text t

abbrev pub month_text : DateTime → Text
month_text t = pad2 t.month ++ b'-' ∷ day_text t

unfoldable pub isoformat : DateTime → Text
isoformat t = pad4 t.year ++ b'-' ∷ month_text t

-- ===== src/Backups/Calendar.antt =====
-- The periods of a time of day, as `date()`, `isocalendar()` and `(year, month)` tell them apart. A
-- time is a number of microseconds since 1970-01-01 in UTC.
use odooctl.Prelude.{ℕ, ◌+◌, ◌-◌, ◌*◌, ◌/◌, ◌%◌}

abbrev pub microseconds_per_day : ℕ
microseconds_per_day = 86_400_000_000

-- Each date is a day's number.
abbrev pub day_bucket : ℕ → ℕ
day_bucket time = time / microseconds_per_day

-- 1970-01-01 is a Thursday and ISO weeks begin on Monday: a pair of year and week is one week's
-- number.
abbrev pub week_bucket : ℕ → ℕ
week_bucket time = (day_bucket time + 3) / 7

-- The month of a day in the Gregorian calendar, as `12 * year + month`: years of the computation
-- begin in March, so that the leap day is the last of its year, and repeat after 400 years.
abbrev pub month_bucket : ℕ → ℕ
month_bucket time =
    let shifted = day_bucket time + 719468 in
    let era = shifted / 146097 in
    let day = shifted % 146097 in
    let year = (day - day / 1460 + day / 36524 - day / 146096) / 365 in
    let day_of_year = day - (365 * year + year / 4 - year / 100) in
    let month = (5 * day_of_year + 2) / 153 in 12 * (era * 400 + year) + (month + 3)

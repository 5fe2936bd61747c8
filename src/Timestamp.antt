-- ===== src/Timestamp.antt =====
-- libslinga/timestamp.c: dates and seconds since 1980. An `int` stands as its 32-bit pattern. An
-- out-parameter is the result, so that it is not NULL; `none` is a NULL `date` argument.
pub mod FromSeconds
use libslinga.Prelude.{ℕ, zero, suc, ◌+◌, ◌-◌, ◌*◌, ◌/◌, ◌%◌, [], ◌∷◌, Bool, ◌&&◌, ◌||◌, ◌==◌}
use libslinga.Prelude.{◌!=◌, ltb, leb, if◌then◌else◌, get_or, u32, u8, sub32, Option, none, some}
use libslinga.Prelude.{Result, ok, err, diverge, Error, ◌>>=◌, ◌>>◌, reject}

abbrev pub seconds_in_minute : ℕ
seconds_in_minute = 60

abbrev pub minutes_in_hour : ℕ
minutes_in_hour = 60

abbrev pub seconds_in_hour : ℕ
seconds_in_hour = 3600

abbrev pub seconds_in_day : ℕ
seconds_in_day = 86400

-- `BACKUP_DATE`, a byte each; the year is less 1980.
pub record BackupDate : Type 0 where
  pub year : ℕ
  pub month : ℕ
  pub day : ℕ
  pub hour : ℕ
  pub minute : ℕ
  pub day_of_week : ℕ

unfoldable pub is_leap_year : ℕ → Bool
is_leap_year year = year % 4 == 0 && (year % 100 != 0 || year % 400 == 0)

-- The index into the table is not checked; `from_timestamp` stays within it
-- (Timestamp/FromSeconds.antt), and past its end a month has no days here.
unfoldable pub days_in_month : ℕ → ℕ → ℕ
unfolding is_leap_year
days_in_month month year =
    if month == 2 && is_leap_year year
    then 29
    else get_or (0 ∷ 31 ∷ 28 ∷ 31 ∷ 30 ∷ 31 ∷ 30 ∷ 31 ∷ 31 ∷ 30 ∷ 31 ∷ 30 ∷ 31 ∷ []) month 0

-- `(is_leap_year(year) ? 366 : 365) * SECONDS_IN_DAY`
unfoldable pub seconds_in_year : ℕ → ℕ
unfolding is_leap_year
seconds_in_year year = (if is_leap_year year then 366 else 365) * seconds_in_day

-- for(int y = 0; y < date->year; y++), with `left` years to go
unfoldable pub add_years : ℕ → ℕ → ℕ → ℕ
add_years y zero seconds = seconds
add_years y (suc left) seconds = add_years (y + 1) left (u32 (seconds + seconds_in_year (y + 1980)))

-- for(int m = 1; m < date->month; m++), with `left` months to go; `year` is passed as it is stored.
unfoldable pub add_months : ℕ → ℕ → ℕ → ℕ → ℕ
add_months year m zero seconds = seconds
add_months year m (suc left) seconds =
    add_months year (m + 1) left (u32 (seconds + days_in_month m year * seconds_in_day))

abbrev pub bad_date : BackupDate → Bool
bad_date d = ltb 12 d.month || ltb 31 d.day || ltb 23 d.hour || ltb 59 d.minute

-- `Slinga_ConvertDateToTimestamp`
unfoldable pub convert_date_to_timestamp : Option BackupDate → Result ℕ
unfolding add_years add_months
convert_date_to_timestamp none = err Error.invalid_parameter
convert_date_to_timestamp (some d) = do
  reject (bad_date d) Error.invalid_parameter
  let years = add_years 0 d.year 0
  let months = add_months d.year 1 (d.month - 1) years
  let days = u32 (months + sub32 d.day 1 * seconds_in_day)
  ok (u32 (days + (d.hour * minutes_in_hour + d.minute * seconds_in_minute)))

-- while(timestamp >= ..) over the years, then over the months: the count and the seconds left
unfoldable pub take_years : ℕ → ℕ → ℕ → Result (ℕ × ℕ)
take_years zero year timestamp = diverge
take_years (suc fuel) year timestamp =
    let rest = take_years fuel (year + 1) (timestamp - seconds_in_year year) in
    if leb (seconds_in_year year) timestamp then rest else ok (year, timestamp)

unfoldable pub take_months : ℕ → ℕ → ℕ → ℕ → Result (ℕ × ℕ)
take_months zero year month timestamp = diverge
take_months (suc fuel) year month timestamp =
    let month_seconds = days_in_month month year * seconds_in_day in
    let rest = take_months fuel year (month + 1) (timestamp - month_seconds) in
    if leb month_seconds timestamp then rest else ok (month, timestamp)

-- Of `days_since_1980`
abbrev pub weekday : ℕ → ℕ
weekday timestamp = (timestamp / seconds_in_day + 2) % 7

-- `Slinga_ConvertTimestampToDate`. No year is shorter than 365 days, and there are 12 months.
unfoldable pub convert_timestamp_to_date : ℕ → Result BackupDate
unfolding take_years take_months
convert_timestamp_to_date timestamp = do
  (year, in_year) ← take_years (timestamp / (365 * seconds_in_day) + 1) 1980 timestamp
  (month, in_month) ← take_months 13 year 1 in_year
  ok (record {
    year = u8 (year - 1980);
    month = u8 month;
    day = u8 (in_month / seconds_in_day);
    hour = u8 (in_month % seconds_in_day / seconds_in_hour);
    minute = u8 (in_month % seconds_in_day % seconds_in_hour / seconds_in_minute);
    day_of_week = u8 (weekday timestamp);
  })

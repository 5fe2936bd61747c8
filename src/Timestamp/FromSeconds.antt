-- ===== src/Timestamp/FromSeconds.antt =====
-- libslinga/timestamp.c: how `Slinga_ConvertTimestampToDate` splits a timestamp.
use libslinga.Prelude.{ℕ, zero, suc, ◌+◌, ◌-◌, ◌*◌, ◌/◌, ◌%◌, ◌^◌, ◌≤◌, ◌<◌, ◌≡◌, refl, arith}
use libslinga.Prelude.{Bool, true, false, ◌==◌, ◌&&◌, leb, if◌then◌else◌, each_below}
use libslinga.Prelude.{each_below_at, sym, get_or, u8, ap, ◌∙◌, Result, ok, Bool-cases, inl, inr}
use libslinga.Prelude.{[], ◌∷◌}
use native.Mathlib.Decide.{dec_le}
use libslinga.Timestamp.{BackupDate, is_leap_year, days_in_month, seconds_in_year, take_years}
use libslinga.Timestamp.{take_months, weekday, convert_timestamp_to_date}

-- The seconds of the first `n` years from 1980 on, and of the first `n` months of a year.
unfoldable pub years_before : ℕ → ℕ
years_before zero = 0
years_before (suc n) = years_before n + seconds_in_year (1980 + n)

unfoldable pub months_before : ℕ → ℕ → ℕ
months_before year zero = 0
months_before year (suc n) = months_before year n + days_in_month (n + 1) year * 86400

one_more : (n : ℕ) → n + 1 ≡ suc n
one_more n = omega arith

years_before-suc : (n : ℕ) → years_before (n + 1) ≡ years_before n + seconds_in_year (1980 + n)
unfolding years_before
years_before-suc n = ap years_before (one_more n)

months_before-suc :
    (year n : ℕ)
    → months_before year (n + 1) ≡ months_before year n + days_in_month (n + 1) year * 86400
unfolding months_before
months_before-suc year n = ap (months_before year) (one_more n)

-- Both are whole days.
years_before-whole : (n : ℕ) → (q : ℕ) × (years_before n ≡ q * 86400)
unfolding years_before seconds_in_year
years_before-whole zero = (0, refl)
years_before-whole (suc n) =
    let (q, e) = years_before-whole n in
    (q + (if is_leap_year (1980 + n) then 366 else 365), omega (arith, e))

months_before-whole : (year n : ℕ) → (q : ℕ) × (months_before year n ≡ q * 86400)
unfolding months_before
months_before-whole year zero = (0, refl)
months_before-whole year (suc n) =
    let (q, e) = months_before-whole year n in (q + days_in_month (n + 1) year, omega (arith, e))

-- The months make up the year.
pub months_before-12 : (year : ℕ) → months_before year 12 ≡ seconds_in_year year
unfolding months_before days_in_month seconds_in_year
months_before-12 year = elim (Bool-cases (is_leap_year year)) [
  | inl leap ↦ rw leap refl
  | inr common ↦ rw common refl
]

pub year_bounds : (year : ℕ) → (31536000 ≤ seconds_in_year year) × (seconds_in_year year ≤ 31622400)
unfolding seconds_in_year
year_bounds year = ground arith

pub years_before-ge : (n : ℕ) → n * 31536000 ≤ years_before n
unfolding years_before
years_before-ge zero = omega arith
years_before-ge (suc n) = omega (arith, years_before-ge n, year_bounds (1980 + n))

-- Where a loop that takes whole periods stops.
abbrev TakesYears : ℕ → ℕ → Result (ℕ × ℕ) → Type 0
TakesYears n t r =
    (n' : ℕ) × (t' : ℕ) × (r ≡ ok (1980 + n', t'))
    × (years_before n' + t' ≡ years_before n + t)
    × (t' < seconds_in_year (1980 + n'))

take_years_lem :
    (fuel n y t : ℕ) → y ≡ 1980 + n → t < fuel * 31536000 → TakesYears n t (take_years fuel y t)
unfolding take_years years_before
take_years_lem zero n y t e f = absurd (omega arith)
take_years_lem (suc fuel) n y t e f = rw e (elim (Bool-cases (leb (seconds_in_year (1980 + n)) t)) [
  | inl more ↦
      let le : seconds_in_year (1980 + n) ≤ t = ground arith in
      rw more (
        unwind le (
          take_years_lem fuel (n + 1) (1980 + n + 1) (t - seconds_in_year (1980 + n)) (omega arith)
            (omega (arith, le, year_bounds (1980 + n), f))))
  | inr last ↦ rw last (n, t, refl, refl, ground arith)
])
  where
    settle :
        (n' t' : ℕ)
        → seconds_in_year (1980 + n) ≤ t
        → years_before n' + t' ≡ years_before (n + 1) + (t - seconds_in_year (1980 + n))
        → years_before n' + t' ≡ years_before n + t
    settle n' t' le sum = omega (arith, le, sum, years_before-suc n)

    unwind :
        seconds_in_year (1980 + n) ≤ t
        → TakesYears
            (n + 1)
            (t - seconds_in_year (1980 + n))
            (take_years fuel (1980 + n + 1) (t - seconds_in_year (1980 + n)))
        → TakesYears n t (take_years fuel (1980 + n + 1) (t - seconds_in_year (1980 + n)))
    unwind le (n', t', r, sum, small) = (n', t', r, settle n' t' le sum, small)

-- Where the loop over the months stops: within the year.
abbrev TakesMonths : ℕ → ℕ → Result (ℕ × ℕ) → Type 0
TakesMonths year total r =
    (k : ℕ) × (t' : ℕ) × (r ≡ ok (k + 1, t'))
    × (k ≤ 11)
    × (months_before year k + t' ≡ total)
    × (t' < days_in_month (k + 1) year * 86400)

take_months_lem :
    (year total fuel k t : ℕ)
    → k + fuel ≡ 13
    → k ≤ 12
    → months_before year k + t ≡ total
    → total < seconds_in_year year
    → TakesMonths year total (take_months fuel year (k + 1) t)
unfolding take_months months_before
take_months_lem year total zero k t e small sum within = absurd (omega arith)
take_months_lem year total (suc fuel) k t e small sum within = elim (dec_le 12 k) [
  | yes last ↦ absurd (omega (arith, within, whole (omega arith)))
  | no more ↦ elim (Bool-cases (leb (days_in_month (k + 1) year * 86400) t)) [
    | inl next ↦
        let le : days_in_month (k + 1) year * 86400 ≤ t = ground arith in
        rw next (
          take_months_lem year total fuel (k + 1) (t - days_in_month (k + 1) year * 86400)
            (omega arith) (omega arith) (omega (arith, le, sum, months_before-suc year k)) within)
    | inr stop ↦ rw stop (k, t, refl, omega arith, sum, ground arith)
  ]
]
  where
    whole : k ≡ 12 → seconds_in_year year + t ≡ total
    whole at =
        ap (λ x. x + t) (sym (months_before-12 year))
        ∙ ap (λ x. months_before year x + t) (sym at)
        ∙ sum

-- The days of a month, with the leap test as a Boolean.
abbrev days : Bool → ℕ → ℕ
days leap m =
    if m == 2 && leap
    then 29
    else get_or (0 ∷ 31 ∷ 28 ∷ 31 ∷ 30 ∷ 31 ∷ 30 ∷ 31 ∷ 31 ∷ 30 ∷ 31 ∷ 30 ∷ 31 ∷ []) m 0

days_table : (leap : Bool) → each_below 13 (λ m. leb (days leap m) 31) ≡ true
unfolding each_below
days_table true = refl
days_table false = refl

days_in_month-le : (year k : ℕ) → k ≤ 11 → days_in_month (k + 1) year ≤ 31
unfolding days_in_month
days_in_month-le year k small =
    ground (arith, each_below_at 13 _ (k + 1) (days_table (is_leap_year year)) (omega arith))

-- A date that splits a timestamp: the years and months before it, its day, counted from 0, its
-- hour and minute and the seconds past it make up the timestamp, and each field is in its range.
abbrev pub Splits : ℕ → BackupDate → Type 0
Splits t d =
    (years_before d.year
        + months_before (1980 + d.year) (d.month - 1)
        + d.day * 86400
        + d.hour * 3600
        + d.minute * 60
        + t % 60
      ≡ t)
    × (1 ≤ d.month)
    × (d.month ≤ 12)
    × (d.day < days_in_month d.month (1980 + d.year))
    × (d.hour < 24)
    × (d.minute < 60)
    × (d.day_of_week ≡ weekday t)

-- The fields of the date after `n` years and `k` months, with `left` seconds to go.
abbrev date_at : ℕ → ℕ → ℕ → ℕ → BackupDate
date_at n k left t = record {
  year = n;
  month = k + 1;
  day = left / 86400;
  hour = left % 86400 / 3600;
  minute = left % 86400 % 3600 / 60;
  day_of_week = weekday t;
}

u8-small : (n : ℕ) → n < 256 → u8 n ≡ n
u8-small n small = omega arith

-- The same, each field cut to a byte.
abbrev date_bytes : ℕ → ℕ → ℕ → ℕ → BackupDate
date_bytes n k left t = record {
  year = u8 (1980 + n - 1980);
  month = u8 (k + 1);
  day = u8 (left / 86400);
  hour = u8 (left % 86400 / 3600);
  minute = u8 (left % 86400 % 3600 / 60);
  day_of_week = u8 (weekday t);
}

from_1980 : (n : ℕ) → 1980 + n - 1980 ≡ n
from_1980 n = omega arith

bytes_hold :
    (n k left t : ℕ)
    → n < 256
    → k ≤ 11
    → left < 31 * 86400
    → date_bytes n k left t ≡ date_at n k left t
bytes_hold n k left t hn hk hl =
    rw
      (
        u8-small (1980 + n - 1980) (omega arith),
        u8-small (k + 1) (omega arith),
        u8-small (left / 86400) (omega arith),
        u8-small (left % 86400 / 3600) (omega arith),
        u8-small (left % 86400 % 3600 / 60) (omega arith),
        u8-small (weekday t) (omega arith),
        from_1980 n,
      )
      refl

less_one : (k : ℕ) → k + 1 - 1 ≡ k
less_one k = omega arith

adds_up :
    (n k left t : ℕ)
    → years_before n + months_before (1980 + n) k + left ≡ t
    → years_before n
        + months_before (1980 + n) (k + 1 - 1)
        + left / 86400 * 86400
        + left % 86400 / 3600 * 3600
        + left % 86400 % 3600 / 60 * 60
        + t % 60
      ≡ t
adds_up n k left t sum =
    let (q, e) = years_before-whole n in
    let (q', e') = months_before-whole (1980 + n) k in rw (less_one k) (omega (arith, e, e', sum))

-- `convert_timestamp_to_date` succeeds on every 32-bit timestamp, and its date splits the
-- timestamp: the whole years since 1980, the whole months of the year, the days, hours and
-- minutes of the date, with its day counted from 0, and the seconds past the minute add up to
-- the timestamp; the month is 1 to 12, the day below the number of days of that month, the hour
-- below 24 and the minute below 60.
pub convert_timestamp_to_date-Splits :
    (t : ℕ) → t < 2 ^ 32 → (d : BackupDate) × (convert_timestamp_to_date t ≡ ok d) × Splits t d
unfolding convert_timestamp_to_date years_before months_before
convert_timestamp_to_date-Splits t small =
    after_years (take_years_lem (t / 31536000 + 1) 0 1980 t refl (omega arith))
  where
    after_months :
        (n t1 : ℕ)
        → take_years (t / 31536000 + 1) 1980 t ≡ ok (1980 + n, t1)
        → years_before n + t1 ≡ t
        → TakesMonths (1980 + n) t1 (take_months 13 (1980 + n) 1 t1)
        → (d : BackupDate) × (convert_timestamp_to_date t ≡ ok d) × Splits t d
    after_months n t1 found sum (k, left, found', hk, sum', within) =
        let short : left < 31 * 86400 = omega (arith, within, days_in_month-le (1980 + n) k hk) in
        (
          date_at n k left t,
          rw (found, found')
              (ap ok (bytes_hold n k left t (omega (arith, years_before-ge n)) hk short)),
          (
            adds_up n k left t (omega arith),
            omega arith,
            omega arith,
            omega (arith, within),
            omega arith,
            omega arith,
            refl,
          ),
        )

    after_years :
        TakesYears 0 t (take_years (t / 31536000 + 1) 1980 t)
        → (d : BackupDate) × (convert_timestamp_to_date t ≡ ok d) × Splits t d
    after_years (n, t1, found, sum, within) =
        after_months n t1 found (omega arith)
          (take_months_lem (1980 + n) t1 13 0 t1 refl (omega arith) (omega arith) within)

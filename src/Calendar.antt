-- ===== src/Calendar.antt =====
-- Python's `datetime.date`: construction, order, and the day arithmetic that the program uses.
-- An instant (`datetime`) is its number of microseconds since 0001-01-01, so it is compared and
-- moved as a number.
pub mod Iso
pub mod Order
use eu_ai_act_compliance.Prelude.{
  ℕ, zero, suc, ◌+◌, ◌-◌, ◌*◌, ◌/◌, ◌%◌, ◌≤◌, min, Bool, true, false, not, ◌&&◌, ◌||◌, ltb, leb,
  ◌==◌, if◌then◌else◌, Option, none, some,
}
use eu_ai_act_compliance.Result.{value_error, overflow_error, Result, ok, err, ◌>>=◌, ◌>>◌, require}

pub record Date : Type 0 where
  pub year : ℕ
  pub month : ℕ
  pub day : ℕ

abbrev pub on : ℕ → ℕ → ℕ → Date
on y m d = record { year = y; month = m; day = d }

abbrev pub DateTime : Type 0
DateTime = ℕ

-- `timedelta(days=1)`, in microseconds
unfoldable pub day_length : ℕ
day_length = 86_400_000_000

abbrev pub max_year : ℕ
max_year = 9999

unfoldable pub is_leap : ℕ → Bool
is_leap y = y % 4 == 0 && (not (y % 100 == 0) || y % 400 == 0)

-- `calendar.monthrange(year, month)[1]`
unfoldable pub days_in_month : ℕ → ℕ → ℕ
unfolding is_leap
days_in_month y m =
    if (m == 4) || (m == 6) || (m == 9) || (m == 11)
    then 30
    else if m == 2
    then (if is_leap y then 29 else 28)
    else 31

-- `date(year, month, day)`
unfoldable pub date : ℕ → ℕ → ℕ → Result Date
unfolding days_in_month
date y m d = do
  require (leb 1 y && leb y max_year) (value_error "year is out of range")
  require (leb 1 m && leb m 12) (value_error "month must be in 1..12")
  require (leb 1 d && leb d (days_in_month y m)) (value_error "day is out of range for month")
  ok (on y m d)

-- What the constructor lets through.
pub record IsDate (d : Date) : Type 0 where
  pub year_low : 1 ≤ d.year
  pub year_high : d.year ≤ max_year
  pub month_low : 1 ≤ d.month
  pub month_high : d.month ≤ 12
  pub day_low : 1 ≤ d.day
  pub day_high : d.day ≤ days_in_month d.year d.month

-- `a < b`
unfoldable pub lt : Date → Date → Bool
lt a b =
    ltb a.year b.year
    || (a.year == b.year && (ltb a.month b.month || (a.month == b.month && ltb a.day b.day)))

-- `a <= b`
unfoldable pub le : Date → Date → Bool
unfolding lt
le a b = not (lt b a)

-- The day after: what adding `timedelta(days=1)` gives.
unfoldable pub next_day : Date → Result Date
unfolding days_in_month
next_day d =
    if ltb d.day (days_in_month d.year d.month)
    then ok (on d.year d.month (d.day + 1))
    else if ltb d.month 12
    then ok (on d.year (d.month + 1) 1)
    else if ltb d.year max_year
    then ok (on (d.year + 1) 1 1)
    else err overflow_error

-- `d + timedelta(days=n)`
unfoldable pub add_days : ℕ → Date → Result Date
unfolding next_day
add_days zero d = ok d
add_days (suc n) d = do next ← next_day d; add_days n next

-- ===== src/Legal/Deadlines/Months.antt =====
-- src/legal/deadlines.py, `_add_months`: which date it gives.
use eu_ai_act_compliance.Prelude.{
  ℕ, ◌+◌, ◌-◌, ◌*◌, ◌/◌, ◌%◌, ◌≤◌, ◌<◌, min, true, false, ◌&&◌, leb, leb→le, ◌≡◌, ◌⊎◌, inl, inr,
  refl, arith, Bool-cases,
}
use eu_ai_act_compliance.Result.{ok, err, value_error}
use eu_ai_act_compliance.Calendar.{Date, on, date, days_in_month, max_year, IsDate}
use eu_ai_act_compliance.Legal.Deadlines.{add_months}

days_in_month-pos : (y m : ℕ) → 28 ≤ days_in_month y m
unfolding days_in_month
days_in_month-pos y m = ground arith

date-ok : (y m d : ℕ) → IsDate (on y m d) → date y m d ≡ ok (on y m d)
unfolding date
date-ok y m d v =
    let year : leb 1 y && leb y max_year ≡ true = ground (arith, v.year_low, v.year_high) in
    let month : leb 1 m && leb m 12 ≡ true = ground (arith, v.month_low, v.month_high) in
    let day : leb 1 d && leb d (days_in_month y m) ≡ true = ground (arith, v.day_low, v.day_high) in
    rw (year, month, day) refl

date-late : (y m d : ℕ) → max_year < y → date y m d ≡ err (value_error "year is out of range")
unfolding date
date-late y m d h = let year : leb 1 y && leb y max_year ≡ false = ground arith in rw year refl

-- Adding months to a valid date gives the valid date that lies so many months later, on the same
-- day or, where that month is shorter, on its last day; it raises exactly when that month lies behind
-- the year 9999.
pub add_months-lem :
    (d : Date) (months : ℕ)
    → IsDate d
    → ((d.year + (d.month - 1 + months) / 12 ≤ max_year)
        × (e : Date) × (add_months d months ≡ ok e)
        × IsDate e
        × (12 * e.year + e.month ≡ 12 * d.year + d.month + months)
        × (e.day ≡ min d.day (days_in_month e.year e.month)))
      ⊎ ((max_year < d.year + (d.month - 1 + months) / 12)
          × (add_months d months ≡ err (value_error "year is out of range")))
unfolding add_months
add_months-lem d months v =
    let index = d.month - 1 + months in
    let y = d.year + index / 12 in
    let m = index % 12 + 1 in
    let day = min d.day (days_in_month y m) in
    let low = v.month_low in
    elim (Bool-cases (leb y max_year)) [
      | inl q ↦
          let valid : IsDate (on y m day) = record {
            year_low = omega (arith, v.year_low);
            year_high = leb→le y max_year q;
            month_low = omega arith;
            month_high = omega arith;
            day_low = omega (arith, v.day_low, days_in_month-pos y m);
            day_high = omega arith;
          } in
          inl (
            leb→le y max_year q,
            on y m day,
            date-ok y m day valid,
            valid,
            omega (arith, low),
            refl,
          )
      | inr q ↦ inr (ground arith, date-late y m day (ground arith))
    ]

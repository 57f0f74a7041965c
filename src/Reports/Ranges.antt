-- ===== src/Reports/Ranges.antt =====
-- Ranges are whole calendar months.
use grocery_genie.Base.{
  nat_eq, string_eq, ℕ, ◌+◌, ◌-◌, ◌/◌, ◌%◌, ◌≤◌, ◌≡◌, refl, true, none, some, arith,
}
use grocery_genie.Reports.{
  last12, all_time, this_year, custom, Month, MonthRange, Date, Delta, ahead, back, month_of, shift,
  index_of, add_months, last_year, months_for_period, not_after, range_is_valid,
}

abbrev pub IsMonth : Month → Type 0
IsMonth m = (1 ≤ m.month) × (m.month ≤ 12)

index_of-from : (i : ℕ) → index_of (record { year = i / 12; month = i % 12 + 1 }) ≡ i
index_of-from i = omega arith

Month-eq : (m n : Month) → m.year ≡ n.year → m.month ≡ n.month → m ≡ n
Month-eq m n y k = cc

pub index_of-inj : (m n : Month) → IsMonth m → IsMonth n → index_of m ≡ index_of n → m ≡ n
index_of-inj m n p q e = Month-eq m n (omega arith) (omega arith)

-- Moving a month by `delta` gives a month of the calendar, `delta` months away, and moving ahead
-- and back by as much is the same month again.
pub add_months-shift :
    (m : Month) (delta : Delta) (n : ℕ)
    → IsMonth m
    → IsMonth (add_months m delta)
      × (index_of (add_months m delta) ≡ shift delta (index_of m))
      × (add_months (add_months m (ahead n)) (back n) ≡ m)
unfolding add_months
add_months-shift m delta n p = (
  omega arith,
  index_of-from (shift delta (index_of m)),
  let i = index_of m + n in
      let first = index_of-from i in
      let second = index_of-from (index_of (add_months m (ahead n)) - n) in
      index_of-inj _ m (omega arith) p (omega (arith, first, second)),
)

abbrev pub Spans : ℕ → MonthRange → Type 0
Spans n r =
    (f : Month) × (t : Month) × (r.from ≡ some f)
    × (r.to ≡ some t)
    × IsMonth f
    × IsMonth t
    × (index_of t + 1 ≡ index_of f + n)

last_year-Spans :
    (m : Month)
    → IsMonth m
    → 1 ≤ m.year
    → Spans 12 (last_year m) × (not_after (add_months m (back 11)) m ≡ true)
unfolding last_year add_months
last_year-Spans m p y =
    let first = index_of-from (index_of m - 11) in
    (
      (
        add_months m (back 11),
        m,
        refl,
        refl,
        unfold add_months in omega arith,
        p,
        unfold add_months in omega (arith, first),
      ),
      unfold add_months in ground (arith, first),
    )

-- At a date of the calendar, the ranges that the app offers are valid: the last 12 months, which
-- Custom starts from, end with this month; this year is its twelve months; all time has no bounds.
months_for_period-Spans :
    (now : Date)
    → IsMonth (month_of now)
    → 1 ≤ now.year
    → let recent = months_for_period last12 now none in
      let year = months_for_period this_year now none in
      Spans 12 recent
      × (recent.to ≡ some (month_of now))
      × (range_is_valid recent.from recent.to ≡ true)
      × (months_for_period custom now none ≡ recent)
      × Spans 12 year
      × (range_is_valid year.from year.to ≡ true)
      × (range_is_valid
            (months_for_period all_time now none).from
            (months_for_period all_time now none).to
          ≡ true)
unfolding months_for_period range_is_valid
months_for_period-Spans now p y =
    let recent = last_year-Spans (month_of now) p y in
    (
      recent.0,
      refl,
      recent.1,
      refl,
      (
        record { year = now.year; month = 1 },
        record { year = now.year; month = 12 },
        refl,
        refl,
        omega arith,
        omega arith,
        omega arith,
      ),
      ground arith,
      refl,
    )

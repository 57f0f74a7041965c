-- ===== src/Prices/Chart/Ticks.antt =====
-- The months of a chart are found with the fuel they are given.
use grocery_genie.Base.{
  nat_eq, string_eq, ℕ, zero, suc, ◌+◌, ◌-◌, ◌≤◌, ◌<◌, ◌≡◌, refl, ap, [], ◌∷◌, arith, ltb, ◌==◌,
  if◌then◌else◌, if_cases,
}
use grocery_genie.Reports.{Month, Date, ahead, month_of, add_months}
use grocery_genie.Reports.Ranges.{IsMonth, add_months-shift}
use grocery_genie.Calendar.{day_number}
use grocery_genie.Calendar.Order.{IsDate, last_day-bounds, day_number-earlier}
use grocery_genie.Prices.Chart.{months_until, first_whole_month}

abbrev first_day : Month → Date
first_day m = record { year = m.year; month = m.month; day = 1 }

first_day-IsDate : (m : Month) → IsMonth m → IsDate (first_day m)
first_day-IsDate m h = (h.0, h.1, omega arith, omega (arith, (last_day-bounds m).0))

later_month :
    (m : Month)
    → IsMonth m
    → day_number (first_day m) < day_number (first_day (add_months m (ahead 1)))
later_month m h =
    let moved = add_months-shift m (ahead 1) 0 h in
    day_number-earlier (first_day m) (first_day (add_months m (ahead 1))) (first_day-IsDate m h)
      (first_day-IsDate (add_months m (ahead 1)) moved.0) (ground (arith, moved.1, moved.0, h))

months_until-enough :
    (fuel n : ℕ) (m : Month) (end : ℕ)
    → IsMonth m
    → fuel ≤ n
    → end < day_number (first_day m) + fuel
    → months_until n m end ≡ months_until fuel m end
unfolding months_until
months_until-enough zero zero m end h le e = refl
months_until-enough zero (suc n) m end h le e =
    if_cases (ltb end (day_number (first_day m))) (λ ms. ms ≡ []) (λ past. refl)
      (λ within. ground (arith, within, e))
months_until-enough (suc fuel) zero m end h le e = ground (arith, le)
months_until-enough (suc fuel) (suc n) m end h le e =
    let next = add_months m (ahead 1) in
    ap (λ rest. if ltb end (day_number (first_day m)) then [] else m ∷ rest)
      (months_until-enough fuel n next end (add_months-shift m (ahead 1) 0 h).0 (omega (arith, le))
        (omega (arith, e, later_month m h)))

first_whole_month-IsMonth : (start : Date) → IsDate start → IsMonth (first_whole_month start)
unfolding first_whole_month
first_whole_month-IsMonth start v =
    if_cases (start.day == 1) IsMonth (λ first. (v.0, v.1))
      (λ later. (add_months-shift (month_of start) (ahead 1) 0 (v.0, v.1)).0)

start-first_whole_month :
    (start : Date)
    → IsDate start
    → day_number start ≤ day_number (first_day (first_whole_month start))
unfolding first_whole_month
start-first_whole_month start v =
    let moved = add_months-shift (month_of start) (ahead 1) 0 (v.0, v.1) in
    if_cases (start.day == 1) (λ m. day_number start ≤ day_number (first_day m))
      (λ first. unfold day_number in ground (arith, first))
      (λ later.
        let before =
          day_number-earlier start (first_day (add_months (month_of start) (ahead 1))) v
            (first_day-IsDate (add_months (month_of start) (ahead 1)) moved.0)
            (ground (arith, moved.1, moved.0, v)) in
        omega (arith, before))

-- The months of a chart are all found: with more steps than the days it spans, from its first date
-- on, no more are.
months_until-all :
    (start : Date) (end n : ℕ)
    → IsDate start
    → suc end - day_number start ≤ n
    → months_until n (first_whole_month start) end
      ≡ months_until (suc end - day_number start) (first_whole_month start) end
months_until-all start end n v enough =
    months_until-enough (suc end - day_number start) n (first_whole_month start) end
      (first_whole_month-IsMonth start v) enough (omega (arith, start-first_whole_month start v))

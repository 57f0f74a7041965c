-- ===== src/Budget/Period/Elapsed.antt =====
-- The days of a period add up.
use grocery_genie.Base.{nat_eq, string_eq, ℕ, ◌+◌, ◌-◌, ◌≤◌, ◌≡◌, some, arith}
use grocery_genie.Base.Int.{pos, ◌+ℤ◌, ◌-ℤ◌}
use grocery_genie.Reports.{Date}
use grocery_genie.Calendar.{day_number}
use grocery_genie.Budget.Period.{
  PeriodBounds, days_between, period_name, period_length, day_in_period, period_heading,
  period_days_left, period_share_elapsed,
}

-- On a day of the period: it is day `n`, with `left` days after it, of `length`.
pub record IsWithin (b : PeriodBounds) (today : Date) (n left length : ℕ) : Type 0 where
  pub heading : period_heading b today ≡ (period_name b, some (pos n))
  pub days_left : period_days_left b today ≡ pos left
  pub share : period_share_elapsed b today ≡ record { part = pos n; whole = pos length }
  pub counted : (1 ≤ n) × (n + left ≡ length)

between :
    (a b : Date)
    → day_number a ≤ day_number b
    → days_between a b ≡ pos (day_number b - day_number a)
unfolding days_between ◌-ℤ◌
between a b h = ground (arith, h)

-- For a day from the first to the last of a period, the heading counts the day from 1, the days
-- left are those after it, the share elapsed is the days counted of all, and the two numbers add up
-- to the length of the period.
pub period_days-IsWithin :
    (b : PeriodBounds) (today : Date)
    → day_number b.start ≤ day_number today
    → day_number today ≤ day_number b.end
    → IsWithin b today
        (day_number today - day_number b.start + 1)
        (day_number b.end - day_number today)
        (day_number b.end - day_number b.start + 1)
unfolding period_heading period_days_left period_share_elapsed ◌+ℤ◌ period_length day_in_period
period_days-IsWithin b today h k =
    let past = between b.start today h in
    let left = between today b.end k in
    let whole = between b.start b.end (omega (arith, h, k)) in
    record {
      heading = rw (past, left) (ground (arith, h, k));
      days_left = rw (whole, left) (ground (arith, h, k));
      share = rw (whole, past) (ground (arith, h, k));
      counted = omega (arith, h, k);
    }

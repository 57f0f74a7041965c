-- ===== src/Reports.antt =====
-- The range of an export: mobile/src/features/settings/utils/exportRange.ts. A date is its year,
-- month and day; printing it as a text is left to the language.
pub mod Download
pub mod Export
pub mod Ranges
mod Tests
use grocery_genie.Base.{
  Eq, nat_eq, string_eq, option_beq, option_beq_iff, changed, trim, is_empty, ℕ, zero, suc, ◌+◌,
  ◌-◌, ◌*◌, ◌/◌, ◌%◌, ◌≤◌, ◌<◌, String, ◌≡◌, refl, sym, ap, subst, ◌∙◌, ◌≢◌, ◌↔◌, ◌⊎◌, inl, inr,
  Bool, true, false, not, ◌&&◌, ◌||◌, Option, none, some, List, [], ◌∷◌, ◌++◌, map, append-nil,
  append_assoc, map-append, arith, str_eq, eq_iff, eq_refl, ltb, leb, ◌==◌, if◌then◌else◌, ltb→lt,
  leb→le, ==_iff, Bool-cases, if_cases, Option-cases, or_else, is_some, length, select, find, any,
  take, drop, All, length-append, All-append, All-map, All-select, All-select_of, length-take-le,
  select-append,
}

pub data ExportPeriod : Type 0 where
  last12 all_time this_year custom : ExportPeriod

pub record Month : Type 0 where
  pub year : ℕ
  pub month : ℕ

pub record MonthRange : Type 0 where
  pub from : Option Month
  pub to : Option Month

pub record Date : Type 0 where
  pub year : ℕ
  pub month : ℕ
  pub day : ℕ

-- A number of months ahead or back.
pub data Delta : Type 0 where
  ahead back : ℕ → Delta

abbrev pub month_of : Date → Month
month_of d = record { year = d.year; month = d.month }

abbrev pub shift : Delta → ℕ → ℕ
shift (ahead n) i = i + n
shift (back n) i = i - n

abbrev pub index_of : Month → ℕ
index_of m = m.year * 12 + (m.month - 1)

unfoldable pub add_months : Month → Delta → Month
add_months m delta =
    let index = shift delta (index_of m) in record { year = index / 12; month = index % 12 + 1 }

abbrev pub last_year : Month → MonthRange
unfolding add_months
last_year current = record { from = some (add_months current (back 11)); to = some current }

abbrev pub picked_or : Option (Month × Month) → MonthRange → MonthRange
picked_or none r = r
picked_or (some (f, t)) r = record { from = some f; to = some t }

unfoldable pub months_for_period : ExportPeriod → Date → Option (Month × Month) → MonthRange
unfolding last_year
months_for_period last12 now picked = last_year (month_of now)
months_for_period this_year now picked = record {
  from = some (record { year = now.year; month = 1 });
  to = some (record { year = now.year; month = 12 });
}
months_for_period all_time now picked = record { from = none; to = none }
months_for_period custom now picked = picked_or picked (last_year (month_of now))

abbrev pub is_leap : ℕ → Bool
is_leap y = y % 4 == 0 && (not (y % 100 == 0) || y % 400 == 0)

abbrev pub short_month : ℕ → Bool
short_month m = m == 4 || m == 6 || m == 9 || m == 11

-- The last day of a month, as day 0 of the next month gives it.
unfoldable pub last_day : Month → ℕ
last_day m =
    if m.month == 2
    then (if is_leap m.year then 29 else 28)
    else if short_month m.month
    then 30
    else 31

abbrev pub first_date : Option Month → Option Date
first_date none = none
first_date (some m) = some (record { year = m.year; month = m.month; day = 1 })

abbrev pub last_date : Option Month → Option Date
unfolding last_day
last_date none = none
last_date (some m) = some (record { year = m.year; month = m.month; day = last_day m })

unfoldable pub range_dates : Option Month → Option Month → Option Date × Option Date
unfolding last_date
range_dates from to = (first_date from, last_date to)

-- compareMonths(a, b) <= 0
abbrev pub not_after : Month → Month → Bool
not_after a b = leb (a.year * 12 + a.month) (b.year * 12 + b.month)

unfoldable pub range_is_valid : Option Month → Option Month → Bool
range_is_valid none to = true
range_is_valid (some f) none = true
range_is_valid (some f) (some t) = not_after f t

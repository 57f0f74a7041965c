-- ===== src/Budget/Period.antt =====
-- A budget period and where today stands in it: mobile/src/features/budget/utils/period.ts. The server sends a period's first and last day. The texts of names and dates are left to
-- the language: a heading is its parts.
pub mod Elapsed
use grocery_genie.Base.{
  Eq, nat_eq, string_eq, option_beq, option_beq_iff, changed, trim, is_empty, ℕ, zero, suc, ◌+◌,
  ◌-◌, ◌*◌, ◌/◌, ◌%◌, ◌≤◌, ◌<◌, String, ◌≡◌, refl, sym, ap, subst, ◌∙◌, ◌≢◌, ◌↔◌, ◌⊎◌, inl, inr,
  Bool, true, false, not, ◌&&◌, ◌||◌, Option, none, some, List, [], ◌∷◌, ◌++◌, map, append-nil,
  append_assoc, map-append, arith, str_eq, eq_iff, eq_refl, ltb, leb, ◌==◌, if◌then◌else◌, ltb→lt,
  leb→le, ==_iff, Bool-cases, if_cases, Option-cases, or_else, is_some, length, select, find, any,
  take, drop, All, length-append, All-append, All-map, All-select, All-select_of, length-take-le,
  select-append, Pairwise, Pairwise-map, find-cases,
}
use grocery_genie.Base.Int.{ℤ, pos, negsuc, pos_part, neg_part, ◌+ℤ◌, ◌-ℤ◌, leb_ℤ, ltb_ℤ}
use grocery_genie.Reports.{Month, Date, month_of, last_day}
use grocery_genie.Calendar.{day_number}

pub record PeriodBounds : Type 0 where
  pub start : Date
  pub end : Date

abbrev pub calendar_month : Month → PeriodBounds
unfolding last_day
calendar_month m = record {
  start = record { year = m.year; month = m.month; day = 1 };
  end = record { year = m.year; month = m.month; day = last_day m };
}

-- The period's own dates, or its calendar month if the server sends none.
unfoldable pub period_bounds : Month → Option Date → Option Date → PeriodBounds
unfolding calendar_month
period_bounds period (some s) (some e) = record { start = s; end = e }
period_bounds period (some s) none = calendar_month period
period_bounds period none e = calendar_month period

unfoldable pub days_between : Date → Date → ℤ
unfolding day_number
days_between from to = pos (day_number to) -ℤ pos (day_number from)

-- "November", or "Oct 15 – Nov 14"; the budget ring has room for "to Nov 14".
pub data PeriodName : Type 0 where
  month_named : Month → PeriodName
  from_to : Date → Date → PeriodName
  up_to : Date → PeriodName

abbrev pub starts_on_first : PeriodBounds → Bool
starts_on_first b = b.start.day == 1

unfoldable pub period_name : PeriodBounds → PeriodName
period_name b = if starts_on_first b then month_named (month_of b.start) else from_to b.start b.end

unfoldable pub period_ring_name : PeriodBounds → PeriodName
period_ring_name b = if starts_on_first b then month_named (month_of b.start) else up_to b.end

abbrev pub period_length : PeriodBounds → ℤ
unfolding days_between
period_length b = days_between b.start b.end +ℤ pos 1

abbrev pub day_in_period : PeriodBounds → Date → ℤ
unfolding days_between
day_in_period b today = days_between b.start today +ℤ pos 1

-- The name, and the day while today is in the period.
unfoldable pub period_heading : PeriodBounds → Date → PeriodName × Option ℤ
unfolding period_name days_between day_in_period
period_heading b today =
    if leb_ℤ (pos 1) (day_in_period b today) && leb_ℤ (pos 0) (days_between today b.end)
    then (period_name b, some (day_in_period b today))
    else (period_name b, none)

abbrev pub min_ℤ : ℤ → ℤ → ℤ
min_ℤ a b = if leb_ℤ a b then a else b

abbrev pub max_ℤ : ℤ → ℤ → ℤ
max_ℤ a b = if leb_ℤ a b then b else a

unfoldable pub period_days_left : PeriodBounds → Date → ℤ
unfolding period_length days_between
period_days_left b today = min_ℤ (period_length b) (max_ℤ (pos 0) (days_between today b.end))

-- A share of something, `part` of `whole`.
pub record Share : Type 0 where
  pub part : ℤ
  pub whole : ℤ

-- The quotient, cut to 0 and 1, of a period whose length is above 0.
unfoldable pub period_share_elapsed : PeriodBounds → Date → Share
unfolding period_length day_in_period
period_share_elapsed b today = record {
  part = min_ℤ (period_length b) (max_ℤ (pos 0) (day_in_period b today));
  whole = period_length b;
}

-- ===== src/Reports/Export.antt =====
-- The screen that exports the user's data: mobile/app/settings/export-data.tsx, with the types of
-- mobile/src/features/settings/services/exportApi.ts.
pub mod Requests
use grocery_genie.Base.{
  Eq, nat_eq, string_eq, option_beq, option_beq_iff, changed, trim, is_empty, ℕ, zero, suc, ◌+◌,
  ◌-◌, ◌*◌, ◌/◌, ◌%◌, ◌≤◌, ◌<◌, String, ◌≡◌, refl, sym, ap, subst, ◌∙◌, ◌≢◌, ◌↔◌, ◌⊎◌, inl, inr,
  Bool, true, false, not, ◌&&◌, ◌||◌, Option, none, some, List, [], ◌∷◌, ◌++◌, map, append-nil,
  append_assoc, map-append, arith, str_eq, eq_iff, eq_refl, ltb, leb, ◌==◌, if◌then◌else◌, ltb→lt,
  leb→le, ==_iff, Bool-cases, if_cases, Option-cases, or_else, is_some, length, select, find, any,
  take, drop, All, length-append, All-append, All-map, All-select, All-select_of, length-take-le,
  select-append, Pairwise, Pairwise-map,
}
use grocery_genie.Errors.{Thrown, api, other, ApiError, coded, api_error_code, is_text}
use grocery_genie.Reports.{
  ExportPeriod, last12, all_time, this_year, custom, Month, MonthRange, Date, Delta, ahead, back,
  month_of, shift, index_of, add_months, last_year, picked_or, months_for_period, is_leap,
  short_month, last_day, first_date, last_date, range_dates, not_after, range_is_valid,
}

pub data ExportFormat : Type 0 where
  csv json pdf : ExportFormat

pub data ExportInclude : Type 0 where
  receipts prices budgets images : ExportInclude

pub record Includes : Type 0 where
  pub receipts : Bool
  pub prices : Bool
  pub budgets : Bool
  pub images : Bool

-- DEFAULT_INCLUDES
abbrev pub default_includes : Includes
default_includes = record { receipts = true; prices = true; budgets = true; images = false }

abbrev pub is_on : ExportInclude → Includes → Bool
is_on receipts i = i.receipts
is_on prices i = i.prices
is_on budgets i = i.budgets
is_on images i = i.images

abbrev pub set_include : ExportInclude → Bool → Includes → Includes
set_include receipts on i = record i { receipts = on }
set_include prices on i = record i { prices = on }
set_include budgets on i = record i { budgets = on }
set_include images on i = record i { images = on }

-- S.includeOrder
abbrev pub include_order : List ExportInclude
include_order = receipts ∷ prices ∷ budgets ∷ images ∷ []

unfoldable pub chosen : Includes → List ExportInclude
chosen i = select (λ k. is_on k i) include_order

abbrev pub one : Bool → ℕ
one b = if b then 1 else 0

abbrev pub count_on : Includes → ℕ
count_on i = one i.receipts + one i.prices + one i.budgets + one i.images

pub record ExportRequest : Type 0 where
  pub format : ExportFormat
  pub from : Option Date
  pub to : Option Date
  pub includes : List ExportInclude

-- The receipt count of the range: being loaded, failed, or known.
pub data Summary : Type 0 where
  loading failed_to_load : Summary
  counted : ℕ → Summary

pub record ExportScreen : Type 0 where
  pub period : ExportPeriod
  pub custom : Month × Month
  pub format : ExportFormat
  pub includes : Includes
  pub pending : Bool
  pub sent : List ExportRequest

-- Custom starts from the last twelve months.
unfoldable pub open_export : Date → ExportScreen
unfolding add_months
open_export now = record {
  period = last12;
  custom = (add_months (month_of now) (back 11), month_of now);
  format = csv;
  includes = default_includes;
  pending = false;
  sent = [];
}

abbrev pub months_shown : Date → ExportScreen → MonthRange
unfolding months_for_period
months_shown now s = months_for_period s.period now (some s.custom)

abbrev pub is_custom : ExportPeriod → Bool
is_custom custom = true
is_custom last12 = false
is_custom all_time = false
is_custom this_year = false

-- The months on screen, if both are there.
abbrev pub both : Option Month → Option Month → Option (Month × Month)
both none to = none
both (some f) none = none
both (some f) (some t) = some (f, t)

unfoldable pub pick_period : Date → ExportPeriod → ExportScreen → ExportScreen
unfolding months_shown
pick_period now next s =
    let months = months_shown now s in
    record s {
      custom =
          if is_custom next && not (is_custom s.period)
          then or_else (both months.from months.to) s.custom
          else s.custom;
      period = next;
    }

pub data Which : Type 0 where
  from_month to_month : Which

abbrev pub set_month : Which → Month → Month × Month → Month × Month
set_month from_month m base = (m, base.1)
set_month to_month m base = (base.0, m)

unfoldable pub pick_month : Date → Which → Month → ExportScreen → ExportScreen
unfolding months_shown
pick_month now which m s =
    let months = months_shown now s in
    record s {
      custom = set_month which m (or_else (both months.from months.to) s.custom);
      period = custom;
    }

-- The switch of the last one that is on is disabled, as all are while an export is prepared.
unfoldable pub toggle : ExportInclude → Bool → ExportScreen → ExportScreen
toggle key on s =
    if s.pending || (is_on key s.includes && count_on s.includes == 1)
    then s
    else record s { includes = set_include key on s.includes }

abbrev pub is_zero : Summary → Bool
is_zero (counted n) = n == 0
is_zero loading = false
is_zero failed_to_load = false

abbrev pub is_loading : Summary → Bool
is_loading loading = true
is_loading failed_to_load = false
is_loading (counted n) = false

abbrev pub nothing_to_export : Summary → Includes → Bool
nothing_to_export summary i = is_zero summary && (i.receipts || not i.budgets)

unfoldable pub disabled : Date → Summary → ExportScreen → Bool
unfolding months_shown range_is_valid
disabled now summary s =
    let months = months_shown now s in
    s.pending
    || not (range_is_valid months.from months.to)
    || nothing_to_export summary s.includes
    || is_loading summary

unfoldable pub start_export : Date → ExportScreen → ExportScreen
unfolding months_shown range_dates chosen
start_export now s =
    let months = months_shown now s in
    let dates = range_dates months.from months.to in
    record s {
      pending = true;
      sent =
          s.sent
          ++ record {
            format = s.format;
            from = dates.0;
            to = dates.1;
            includes = chosen s.includes;
          }
            ∷ [];
    }

pub data Step : Type 0 where
  period_picked : ExportPeriod → Step
  month_picked : Which → Month → Step
  format_picked : ExportFormat → Step
  toggled : ExportInclude → Bool → Step
  export_pressed : Summary → Step
  export_answered : Step

unfoldable pub step : Date → Step → ExportScreen → ExportScreen
unfolding pick_period pick_month toggle disabled start_export
step now (period_picked p) s = pick_period now p s
step now (month_picked which m) s = pick_month now which m s
step now (format_picked f) s = if s.pending then s else record s { format = f }
step now (toggled key on) s = toggle key on s
step now (export_pressed summary) s = if disabled now summary s then s else start_export now s
step now export_answered s = record s { pending = false }

unfoldable pub run : Date → List Step → ExportScreen → ExportScreen
unfolding step
run now [] s = s
run now (x ∷ xs) s = run now xs (step now x s)

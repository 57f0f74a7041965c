-- ===== src/Prices/Trend.antt =====
-- The price history of an item: mobile/src/features/price-intelligence/utils/priceTrend.ts. Prices
-- are natural numbers of cents; a mean is its sum and count. Dates are compared as their
-- "YYYY-MM-DD" texts.
pub mod Averages
pub mod Openings
mod Tests
use grocery_genie.Base.{
  Eq, nat_eq, string_eq, option_beq, option_beq_iff, changed, trim, is_empty, ℕ, zero, suc, ◌+◌,
  ◌-◌, ◌*◌, ◌/◌, ◌%◌, ◌≤◌, ◌<◌, String, ◌≡◌, refl, sym, ap, subst, ◌∙◌, ◌≢◌, ◌↔◌, ◌⊎◌, inl, inr,
  Bool, true, false, not, ◌&&◌, ◌||◌, Option, none, some, List, [], ◌∷◌, ◌++◌, map, append-nil,
  append_assoc, map-append, arith, str_eq, eq_iff, eq_refl, ltb, leb, ◌==◌, if◌then◌else◌, ltb→lt,
  leb→le, ==_iff, Bool-cases, if_cases, Option-cases, or_else, is_some, length, select, find, any,
  take, drop, All, length-append, All-append, All-map, All-select, All-select_of, length-take-le,
  select-append, Pairwise, Pairwise-map,
}
use grocery_genie.Base.Int.{ℤ, pos, sub_ℕ, round_quotient}
use grocery_genie.Reports.{Month, Date, Delta, ahead, back, month_of, add_months, last_day}
use grocery_genie.Calendar.{day_number, earlier, in_month}
use grocery_genie.Prices.{minimum, maximum}

pub record Observation : Type 0 where
  pub line_item_id : String
  pub date : Date
  pub unit_price : ℕ
  pub in_timeline : Bool

abbrev pub plotted : Observation → Bool
plotted p = p.in_timeline

-- timelinePoints
unfoldable pub timeline_points : List Observation → List Observation
timeline_points observations = select plotted observations

abbrev pub price_of : Observation → ℕ
price_of p = p.unit_price

unfoldable pub day_of : Observation → ℕ
unfolding day_number
day_of p = day_number p.date

-- WINDOW_DAYS
abbrev pub window_days : ℕ
window_days = 30

pub record Mean : Type 0 where
  pub sum : ℕ
  pub count : ℕ

abbrev pub sum_of : List ℕ → ℕ
sum_of [] = 0
sum_of (n ∷ ns) = n + sum_of ns

abbrev pub mean : List ℕ → Mean
mean ns = record { sum = sum_of ns; count = length ns }

pub record ThirtyDayAverage : Type 0 where
  pub average : Mean
  pub percent : Option ℤ

abbrev pub is_recent : ℕ → Observation → Bool
unfolding day_of
is_recent latest p = ltb (latest - day_of p) window_days

abbrev pub is_before : ℕ → Observation → Bool
unfolding day_of
is_before latest p =
    not (ltb (latest - day_of p) window_days) && ltb (latest - day_of p) (window_days * 2)

-- Math.round(((average - earlier) / earlier) * 100), null unless earlier > 0: with a / m and b / n
-- it is ((a * n - b * m) * 100) / (b * m), rounded.
unfoldable pub percent_change : Mean → Mean → Option ℤ
unfolding round_quotient
percent_change now before =
    if before.sum == 0 || before.count == 0
    then none
    else some (
        round_quotient (sub_ℕ (now.sum * before.count * 100) (before.sum * now.count * 100))
          (before.sum * now.count))

unfoldable pub latest_day : Observation → List Observation → ℕ
unfolding day_of
latest_day p ps = maximum (day_of p) (map day_of ps)

abbrev pub averages_at : ℕ → List Observation → ThirtyDayAverage
unfolding is_recent is_before percent_change
averages_at latest comparable =
    let recent = mean (map price_of (select (is_recent latest) comparable)) in
    record {
      average = recent;
      percent = percent_change recent (mean (map price_of (select (is_before latest) comparable)));
    }

abbrev pub average_of : List Observation → Option ThirtyDayAverage
unfolding averages_at latest_day
average_of [] = none
average_of (p ∷ ps) = some (averages_at (latest_day p ps) (p ∷ ps))

unfoldable pub thirty_day_average : List Observation → Option ThirtyDayAverage
unfolding average_of
thirty_day_average points = average_of (select plotted points)

-- PRICE_RANGES
pub data PriceRange : Type 0 where
  one_month three_months six_months one_year all_prices : PriceRange

-- RANGE_MONTHS
abbrev pub range_months : PriceRange → Option ℕ
range_months one_month = some 1
range_months three_months = some 3
range_months six_months = some 6
range_months one_year = some 12
range_months all_prices = none

abbrev pub months_back : Option ℕ → Date → Option Date
unfolding add_months
months_back none now = none
months_back (some n) now = some (in_month now.day (add_months (month_of now) (back n)))

unfoldable pub range_from : PriceRange → Date → Option Date
unfolding months_back
range_from range now = months_back (range_months range) now

-- p.date >= from
abbrev pub on_or_after : Date → Observation → Bool
on_or_after from p = not (earlier p.date from)

abbrev pub from_on : Option Date → List Observation → List Observation
from_on none points = points
from_on (some from) points = select (on_or_after from) points

unfoldable pub points_in_range : List Observation → PriceRange → Date → List Observation
unfolding range_from
points_in_range points range now = from_on (range_from range now) points

-- MIN_CHART_POINTS
abbrev pub min_chart_points : ℕ
min_chart_points = 2

unfoldable pub first_with : List PriceRange → List Observation → Date → PriceRange
unfolding points_in_range
first_with [] points now = all_prices
first_with (r ∷ rs) points now =
    let later = first_with rs points now in
    if leb min_chart_points (length (points_in_range points r now)) then r else later

-- PRICE_RANGES.slice(start), from the default range on
unfoldable pub opening_range : List Observation → Date → PriceRange
unfolding first_with
opening_range points now =
    first_with (three_months ∷ six_months ∷ one_year ∷ all_prices ∷ []) points now

unfoldable pub is_stale : Date → Date → Bool
unfolding day_number
is_stale latest now = ltb window_days (day_number now - day_number latest)

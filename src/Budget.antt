-- ===== src/Budget.antt =====
-- The highlights of the spending trend: mobile/src/features/budget/utils/trendHighlights.ts and
-- monthOverMonth.ts. Totals are natural numbers of cents, and quotients are exact before they are
-- rounded. The two averages that are compared are over equally many months, so their sums are
-- compared.
pub mod Caps
pub mod Highlights
pub mod Period
pub mod Settings
mod Tests
use grocery_genie.Base.{
  Eq, nat_eq, string_eq, option_beq, option_beq_iff, changed, trim, is_empty, ℕ, zero, suc, ◌+◌,
  ◌-◌, ◌*◌, ◌/◌, ◌%◌, ◌≤◌, ◌<◌, String, ◌≡◌, refl, sym, ap, subst, ◌∙◌, ◌≢◌, ◌↔◌, ◌⊎◌, inl, inr,
  Bool, true, false, not, ◌&&◌, ◌||◌, Option, none, some, List, [], ◌∷◌, ◌++◌, map, append-nil,
  append_assoc, map-append, arith, str_eq, eq_iff, eq_refl, ltb, leb, ◌==◌, if◌then◌else◌, ltb→lt,
  leb→le, ==_iff, Bool-cases, if_cases, Option-cases, or_else, is_some, length, select, find, any,
  take, drop, All, length-append, All-append, All-map, All-select, All-select_of, length-take-le,
  select-append,
}

pub record TrendMonth : Type 0 where
  pub period : String
  pub total : ℕ

-- A whole percentage, up or down.
pub data Percent : Type 0 where
  up down : ℕ → Percent

pub data TrendDirection : Type 0 where
  rising falling steady : TrendDirection

pub record Trend : Type 0 where
  pub direction : TrendDirection
  pub change : Percent

pub record TrendHighlights : Type 0 where
  pub highest : Option TrendMonth
  pub lowest : Option TrendMonth
  pub trend : Option Trend

-- percentChange: Math.round takes a half up, so a fall of 2.5% is 2% down.
unfoldable pub percent_change : ℕ → ℕ → Option Percent
percent_change current previous =
    if previous == 0
    then none
    else some (
        if leb previous current
        then up (((current - previous) * 200 + previous) / (2 * previous))
        else down (((previous - current) * 200 - previous + (2 * previous - 1)) / (2 * previous)))

-- STEADY_PERCENT
abbrev pub steady_percent : ℕ
steady_percent = 5

abbrev pub direction_of : Percent → TrendDirection
direction_of (up n) = if leb steady_percent n then rising else steady
direction_of (down n) = if leb steady_percent n then falling else steady

abbrev pub trend_of : Option Percent → Option Trend
trend_of none = none
trend_of (some c) = some (record { direction = direction_of c; change = c })

-- The loop for the highest month.
unfoldable pub highest_from : TrendMonth → List TrendMonth → TrendMonth
highest_from h [] = h
highest_from h (m ∷ ms) = highest_from (if ltb h.total m.total then m else h) ms

abbrev pub is_skipped : String → TrendMonth → Bool
is_skipped current m = m.total == 0 || str_eq m.period current

abbrev pub lower : Option TrendMonth → TrendMonth → TrendMonth
lower none m = m
lower (some l) m = if ltb m.total l.total then m else l

-- The loop for the lowest month.
unfoldable pub lowest_from : String → Option TrendMonth → List TrendMonth → Option TrendMonth
lowest_from current l [] = l
lowest_from current l (m ∷ ms) =
    lowest_from current (if is_skipped current m then l else some (lower l m)) ms

unfoldable pub sum : List TrendMonth → ℕ
sum [] = 0
sum (m ∷ ms) = m.total + sum ms

unfoldable pub halves_change : List TrendMonth → Option Percent
unfolding sum percent_change
halves_change months =
    let half = length months / 2 in
    percent_change (sum (drop (length months - half) months)) (sum (take half months))

unfoldable pub trend_change : Bool → Option Percent → List TrendMonth → Option Percent
unfolding halves_change
trend_change halves change months =
    if halves then (if leb 2 (length months) then halves_change months else none) else change

unfoldable pub build_trend_highlights :
    List TrendMonth → Option Percent → String → Bool → TrendHighlights
unfolding highest_from lowest_from trend_change
build_trend_highlights [] change current halves = record {
  highest = none;
  lowest = none;
  trend = none;
}
build_trend_highlights (m ∷ ms) change current halves = record {
  highest = some (highest_from m (m ∷ ms));
  lowest = lowest_from current none (m ∷ ms);
  trend = trend_of (trend_change halves change (m ∷ ms));
}

-- ===== src/Prices/Chart.antt =====
-- The chart of an item's prices: chartGeometry and monthTicks of
-- mobile/src/features/price-intelligence/utils/priceTrend.ts. A position is a fraction, exact
-- before it is drawn.
pub mod InBox
pub mod Ticks
use grocery_genie.Base.{
  Eq, nat_eq, string_eq, option_beq, option_beq_iff, changed, trim, is_empty, ℕ, zero, suc, ◌+◌,
  ◌-◌, ◌*◌, ◌/◌, ◌%◌, ◌≤◌, ◌<◌, String, ◌≡◌, refl, sym, ap, subst, ◌∙◌, ◌≢◌, ◌↔◌, ◌⊎◌, inl, inr,
  Bool, true, false, not, ◌&&◌, ◌||◌, Option, none, some, List, [], ◌∷◌, ◌++◌, map, append-nil,
  append_assoc, map-append, arith, str_eq, eq_iff, eq_refl, ltb, leb, ◌==◌, if◌then◌else◌, ltb→lt,
  leb→le, ==_iff, Bool-cases, if_cases, Option-cases, or_else, is_some, length, select, find, any,
  take, drop, All, length-append, All-append, All-map, All-select, All-select_of, length-take-le,
  select-append, Pairwise, Pairwise-map,
}
use grocery_genie.Base.Int.{ℤ, pos, sub_ℕ, round_quotient}
use grocery_genie.Reports.{Month, Date, Delta, ahead, back, month_of, add_months, last_day}
use grocery_genie.Calendar.{day_number, earlier, in_month}
use grocery_genie.Prices.{minimum, maximum}
use grocery_genie.Prices.Trend.{
  Observation, plotted, timeline_points, price_of, day_of, window_days, Mean, sum_of, mean,
  ThirtyDayAverage, is_recent, is_before, percent_change, latest_day, averages_at, average_of,
  thirty_day_average, PriceRange, one_month, three_months, six_months, one_year, all_prices,
  range_months, months_back, range_from, on_or_after, from_on, points_in_range, min_chart_points,
  first_with, opening_range, is_stale,
}

-- The first days of the months from `m` on that are not after `end`; `fuel` bounds their number.
unfoldable pub months_until : ℕ → Month → ℕ → List Month
unfolding day_number
months_until zero m end = []
months_until (suc fuel) m end =
    let rest = months_until fuel (add_months m (ahead 1)) end in
    if ltb end (day_number (record { year = m.year; month = m.month; day = 1 }))
    then []
    else m ∷ rest

-- ticks.filter((_, i) => i % step === 0), from index `i` on
abbrev pub every {ℓ} : {A : Type ℓ} → ℕ → ℕ → List A → List A
every step i [] = []
every step i (x ∷ xs) = if i % step == 0 then x ∷ every step (suc i) xs else every step (suc i) xs

-- Math.ceil(n / max)
unfoldable pub thinned {ℓ} : {A : Type ℓ} → ℕ → List A → List A
thinned max xs = every ((length xs + (max - 1)) / max) 0 xs

pub record Fraction : Type 0 where
  pub num : ℕ
  pub den : ℕ

-- inset + fraction * inner
abbrev pub placed : ℕ → Fraction → ℕ → Fraction
placed inset f inner = record { num = inset * f.den + f.num * inner; den = f.den }

abbrev pub half : Fraction
half = record { num = 1; den = 2 }

pub record ChartPoint : Type 0 where
  pub x : Fraction
  pub y : Fraction
  pub point : Observation

-- xFraction of the point at index `i`, of `n` points
unfoldable pub x_fraction : ℕ → ℕ → ℕ → ℕ → ℕ → Fraction
x_fraction start span day i n =
    if ltb 0 span
    then record { num = day - start; den = span }
    else if ltb 1 n
    then record { num = i; den = n - 1 }
    else half

unfoldable pub y_fraction : ℕ → ℕ → ℕ → Fraction
y_fraction low high price =
    if ltb low high then record { num = price - low; den = high - low } else half

-- 1 - fraction
abbrev pub flipped : Fraction → Fraction
flipped f = record { num = f.den - f.num; den = f.den }

pub record Box : Type 0 where
  pub width : ℕ
  pub height : ℕ
  pub inset : ℕ

-- What the points are placed by: the first day, the days spanned, the prices and the number.
pub record Extent : Type 0 where
  pub start : ℕ
  pub span : ℕ
  pub low : ℕ
  pub high : ℕ
  pub count : ℕ

unfoldable pub chart_point : Box → Extent → ℕ → Observation → ChartPoint
unfolding x_fraction y_fraction day_of
chart_point b e i p = record {
  x = placed b.inset (x_fraction e.start e.span (day_of p) i e.count) (b.width - b.inset * 2);
  y = placed b.inset (flipped (y_fraction e.low e.high p.unit_price)) (b.height - b.inset * 2);
  point = p;
}

unfoldable pub chart_points : Box → Extent → ℕ → List Observation → List ChartPoint
unfolding chart_point
chart_points b e i [] = []
chart_points b e i (p ∷ ps) = chart_point b e i p ∷ chart_points b e (suc i) ps

unfoldable pub extent_of : Observation → List Observation → Extent
unfolding day_of latest_day
extent_of p ps = record {
  start = minimum (day_of p) (map day_of ps);
  span = latest_day p ps - minimum (day_of p) (map day_of ps);
  low = minimum p.unit_price (map price_of ps);
  high = maximum p.unit_price (map price_of ps);
  count = suc (length ps);
}

pub record ChartGeometry : Type 0 where
  pub points : List ChartPoint
  pub low : ℕ
  pub high : ℕ

unfoldable pub chart_geometry : List Observation → Box → ChartGeometry
unfolding extent_of chart_points
chart_geometry [] b = record { points = []; low = 0; high = 0 }
chart_geometry (p ∷ ps) b =
    let e = extent_of p ps in
    record {
      points = if b.width == 0 || b.height == 0 then [] else chart_points b e 0 (p ∷ ps);
      low = e.low;
      high = e.high;
    }

abbrev pub earlier_of : Date → Date → Date
unfolding day_number
earlier_of a b = if ltb (day_number b) (day_number a) then b else a

-- The date of the first day that the chart spans.
unfoldable pub earliest : Date → List Observation → Date
unfolding earlier_of
earliest d [] = d
earliest d (p ∷ ps) = earliest (earlier_of d p.date) ps

-- The month of the date if it is its first day, else the next one.
abbrev pub first_whole_month : Date → Month
unfolding add_months
first_whole_month d = if d.day == 1 then month_of d else add_months (month_of d) (ahead 1)

abbrev pub or_month : Month → List Month → List Month
or_month m [] = m ∷ []
or_month m (n ∷ ns) = n ∷ ns

abbrev pub first_of : Month → ℕ
unfolding day_number
first_of m = day_number (record { year = m.year; month = m.month; day = 1 })

-- The months that are labelled, `max` at most; a month has more than one day, so the days spanned
-- bound their number. A label stands at the first of its month, a single one at the start.
unfoldable pub month_ticks : ℕ → List Observation → List Month
unfolding earliest first_whole_month months_until latest_day thinned
month_ticks max [] = []
month_ticks max (p ∷ ps) =
    let start = earliest p.date ps in
    let end = latest_day p ps in
    or_month (month_of start)
      (thinned max (months_until (suc end - day_number start) (first_whole_month start) end))

-- ===== src/Prices/Chart/InBox.antt =====
-- The chart stays in its box.
use native.Mathlib.Nat.{mul-le-mul_right, mul_comm}
use grocery_genie.Base.{
  nat_eq, string_eq, ℕ, suc, ◌+◌, ◌-◌, ◌*◌, ◌≤◌, ◌<◌, ◌≡◌, refl, ap, ◌⊎◌, inl, inr, ◌||◌, List, [],
  ◌∷◌, map, arith, ltb, ◌==◌, if◌then◌else◌, if_cases, length, All, All-map,
}
use grocery_genie.Prices.{minimum, maximum}
use grocery_genie.Prices.Trend.{Observation, price_of, day_of, latest_day}
use grocery_genie.Prices.Chart.{
  Fraction, placed, ChartPoint, x_fraction, y_fraction, flipped, Box, Extent, chart_point,
  chart_points, extent_of, chart_geometry,
}

pub maximum-bound : (h : ℕ) (ns : List ℕ) → (h ≤ maximum h ns) × All (λ n. n ≤ maximum h ns) ns
maximum-bound h [] = (omega arith, tt)
maximum-bound h (n ∷ ns) =
    let rest = maximum-bound (if ltb h n then n else h) ns in
    (ground (arith, rest.0), (ground (arith, rest.0), rest.1))

pub minimum-bound : (l : ℕ) (ns : List ℕ) → (minimum l ns ≤ l) × All (λ n. minimum l ns ≤ n) ns
minimum-bound l [] = (omega arith, tt)
minimum-bound l (n ∷ ns) =
    let rest = minimum-bound (if ltb n l then n else l) ns in
    (ground (arith, rest.0), (ground (arith, rest.0), rest.1))

All-of-map :
    (f : Observation → ℕ) (P : ℕ → Type 0) (ps : List Observation)
    → All P (map f ps)
    → All (λ p. P (f p)) ps
All-of-map f P [] h = tt
All-of-map f P (p ∷ ps) h = (h.0, All-of-map f P ps h.1)

-- A fraction from 0 to 1.
abbrev IsShare : Fraction → Type 0
IsShare f = (0 < f.den) × (f.num ≤ f.den)

-- A position from the inset to the far inset of a side.
abbrev pub IsPlaced : ℕ → ℕ → Fraction → Type 0
IsPlaced inset inner f =
    (0 < f.den) × (inset * f.den ≤ f.num) × (f.num ≤ inset * f.den + inner * f.den)

placed-IsPlaced :
    (inset : ℕ) (f : Fraction) (inner : ℕ) → IsShare f → IsPlaced inset inner (placed inset f inner)
placed-IsPlaced inset f inner s =
    (s.0, omega arith, omega (arith, mul-le-mul_right inner s.1, mul_comm inner f.den))

-- The point lies in what the chart spans.
abbrev IsSpanned : Extent → Observation → Type 0
IsSpanned e p =
    (e.start ≤ day_of p)
    × (day_of p ≤ e.start + e.span)
    × (e.low ≤ p.unit_price)
    × (p.unit_price ≤ e.high)

abbrev pub IsInBox : Box → ChartPoint → Type 0
IsInBox b c =
    IsPlaced b.inset (b.width - b.inset * 2) c.x × IsPlaced b.inset (b.height - b.inset * 2) c.y

chart_point-IsInBox :
    (b : Box) (e : Extent) (i : ℕ) (p : Observation)
    → IsSpanned e p
    → i < e.count
    → IsInBox b (chart_point b e i p)
unfolding chart_point x_fraction y_fraction
chart_point-IsInBox b e i p s lt = (
  placed-IsPlaced b.inset (x_fraction e.start e.span (day_of p) i e.count) (b.width - b.inset * 2)
      (ground (arith, s, lt)),
  placed-IsPlaced b.inset (flipped (y_fraction e.low e.high p.unit_price)) (b.height - b.inset * 2)
      (ground (arith, s, lt)),
)

chart_points-IsInBox :
    (b : Box) (e : Extent) (i : ℕ) (ps : List Observation)
    → All (IsSpanned e) ps
    → i + length ps ≤ e.count
    → All (IsInBox b) (chart_points b e i ps)
unfolding chart_points
chart_points-IsInBox b e i [] s le = tt
chart_points-IsInBox b e i (p ∷ ps) s le = (
  chart_point-IsInBox b e i p s.0 (omega (arith, le)),
  chart_points-IsInBox b e (suc i) ps s.1 (omega (arith, le)),
)

All-both :
    (P Q R S : Observation → Type 0) (ps : List Observation)
    → All P ps
    → All Q ps
    → All R ps
    → All S ps
    → All (λ p. P p × Q p × R p × S p) ps
All-both P Q R S [] a b c d = tt
All-both P Q R S (p ∷ ps) a b c d = ((a.0, b.0, c.0, d.0), All-both P Q R S ps a.1 b.1 c.1 d.1)

extent_of-IsSpanned :
    (p : Observation) (ps : List Observation) → All (IsSpanned (extent_of p ps)) (p ∷ ps)
unfolding extent_of latest_day
extent_of-IsSpanned p ps =
    let lows = minimum-bound p.unit_price (map price_of ps) in
    let highs = maximum-bound p.unit_price (map price_of ps) in
    let first = minimum-bound (day_of p) (map day_of ps) in
    let last = maximum-bound (day_of p) (map day_of ps) in
    let start = minimum (day_of p) (map day_of ps) in
    let end = maximum (day_of p) (map day_of ps) in
    (
      (first.0, omega (arith, first.0, last.0), lows.0, highs.0),
      All-both (λ q. start ≤ day_of q) (λ q. day_of q ≤ start + (end - start))
          (λ q. minimum p.unit_price (map price_of ps) ≤ q.unit_price)
          (λ q. q.unit_price ≤ maximum p.unit_price (map price_of ps)) ps
          (All-of-map day_of (λ d. start ≤ d) ps first.1)
          (All-map (λ q. day_of q ≤ end) (λ q. day_of q ≤ start + (end - start))
            (λ q le. omega (arith, le, first.0, last.0)) ps
            (All-of-map day_of (λ d. d ≤ end) ps last.1))
          (All-of-map price_of (λ n. minimum p.unit_price (map price_of ps) ≤ n) ps lows.1)
          (All-of-map price_of (λ n. n ≤ maximum p.unit_price (map price_of ps)) ps highs.1),
    )

abbrev pub drawn : ChartPoint → Observation
drawn c = c.point

chart_points-drawn :
    (b : Box) (e : Extent) (i : ℕ) (ps : List Observation) → map drawn (chart_points b e i ps) ≡ ps
unfolding chart_points chart_point
chart_points-drawn b e i [] = refl
chart_points-drawn b e i (p ∷ ps) = ap (λ qs. p ∷ qs) (chart_points-drawn b e (suc i) ps)

-- The chart of any prices lies in its box: every point is drawn between the insets, across and
-- down, and in a box that has a size each price is drawn, in order, with the range labels its
-- bounds.
pub chart_geometry-IsInBox :
    (ps : List Observation) (b : Box)
    → let g = chart_geometry ps b in
      All (IsInBox b) g.points
      × All (λ p. (g.low ≤ p.unit_price) × (p.unit_price ≤ g.high)) ps
      × ((map drawn g.points ≡ ps) ⊎ ((b.width ≡ 0) ⊎ (b.height ≡ 0)))
unfolding chart_geometry
chart_geometry-IsInBox [] b = (tt, tt, inl refl)
chart_geometry-IsInBox (p ∷ ps) b =
    let e = extent_of p ps in
    let spanned = extent_of-IsSpanned p ps in
    (
      if_cases (b.width == 0 || b.height == 0) (All (IsInBox b)) (λ flat. tt)
          (λ sized. chart_points-IsInBox b e 0 (p ∷ ps) spanned (unfold extent_of in omega arith)),
      All-map (IsSpanned e) (λ q. (e.low ≤ q.unit_price) × (q.unit_price ≤ e.high))
          (λ q s. (s.2, s.3)) (p ∷ ps) spanned,
      if_cases (b.width == 0 || b.height == 0)
          (λ qs. (map drawn qs ≡ p ∷ ps) ⊎ ((b.width ≡ 0) ⊎ (b.height ≡ 0)))
          (λ flat. inr (ground (arith, flat))) (λ sized. inl (chart_points-drawn b e 0 (p ∷ ps))),
    )

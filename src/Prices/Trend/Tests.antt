-- ===== src/Prices/Trend/Tests.antt =====
-- A chart of a few prices.
use grocery_genie.Base.{
  nat_eq, string_eq, ℕ, ◌≤◌, ◌≡◌, ◌⊎◌, Bool, true, List, [], ◌∷◌, map, ltb, All,
}
use grocery_genie.Reports.{Date}
use grocery_genie.Prices.Trend.{Observation}
use grocery_genie.Prices.Chart.{Box, chart_geometry}
use grocery_genie.Prices.Chart.InBox.{IsInBox, drawn, chart_geometry-IsInBox}

abbrev bought : ℕ → ℕ → ℕ → Observation
bought month day price = record {
  line_item_id = "l1";
  date = record { year = 2026; month = month; day = day };
  unit_price = price;
  in_timeline = true;
}

abbrev prices : List Observation
prices = bought 1 5 199 ∷ bought 3 20 249 ∷ bought 9 2 219 ∷ []

abbrev box : Box
box = record { width = 300; height = 120; inset = 8 }

abbrev now : Date
now = record { year = 2026; month = 9; day = 30 }

abbrev over_two : Observation → Bool
over_two p = ltb 200 p.unit_price

chart_geometry-IsInBox_example :
    let g = chart_geometry prices box in
    All (IsInBox box) g.points
    × All (λ p. (g.low ≤ p.unit_price) × (p.unit_price ≤ g.high)) prices
    × ((map drawn g.points ≡ prices) ⊎ ((box.width ≡ 0) ⊎ (box.height ≡ 0)))
chart_geometry-IsInBox_example = chart_geometry-IsInBox prices box

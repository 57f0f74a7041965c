-- ===== src/Prices/Trend/Openings.antt =====
-- The range that item detail opens on, ranges inside each other, and the labels of the months.
use grocery_genie.Base.{
  nat_eq, string_eq, ℕ, ◌≤◌, ◌<◌, Bool, true, false, Option, none, some, List, [], ◌∷◌, leb, length,
  All,
}
use grocery_genie.Reports.{Date}
use grocery_genie.Prices.Trend.{
  Observation, PriceRange, one_month, three_months, six_months, one_year, all_prices,
  points_in_range,
}

-- The ranges that are tried before this one.
abbrev pub tried_before : PriceRange → List PriceRange
tried_before one_month = []
tried_before three_months = []
tried_before six_months = three_months ∷ []
tried_before one_year = three_months ∷ six_months ∷ []
tried_before all_prices = three_months ∷ six_months ∷ one_year ∷ []

abbrev pub Opens : List Observation → Date → PriceRange → Type 0
Opens points now r =
    (2 ≤ length (points_in_range points r now))
    × All (λ q. length (points_in_range points q now) < 2) (tried_before r)

abbrev pub months_or_more : Option ℕ → Option ℕ → Bool
months_or_more m none = true
months_or_more none (some n) = false
months_or_more (some m) (some n) = leb m n

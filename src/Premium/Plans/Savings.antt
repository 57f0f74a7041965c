-- ===== src/Premium/Plans/Savings.antt =====
-- The saving that is shown is never more than the real one.
use native.Mathlib.Nat.{div-mul-le_self, le-div_iff_mul-le, div-le_of_le-mul}
use grocery_genie.Base.{
  nat_eq, string_eq, ℕ, ◌+◌, ◌-◌, ◌*◌, ◌≤◌, ◌<◌, ◌≡◌, refl, not, ◌||◌, Option, none, some, arith,
  str_eq, ltb, ◌==◌, ltb→lt, if_cases,
}
use grocery_genie.Premium.Purchases.{PremiumPlan}
use grocery_genie.Premium.Plans.{per_month_price, floor_percent, save_percent}

-- Nothing is shown, or a percentage from 1 to 100 that twelve months of the monthly plan save at
-- least.
abbrev pub IsSaving : Option ℕ → PremiumPlan → PremiumPlan → Type 0
IsSaving none yearly monthly = Unit
IsSaving (some p) yearly monthly =
    (1 ≤ p) × (p ≤ 100) × (p * (monthly.price * 12) + yearly.price * 100 ≤ monthly.price * 12 * 100)

floor_percent-le : (y m : ℕ) → floor_percent y m * (m * 12) ≤ (m * 12 - y) * 100
floor_percent-le y m = div-mul-le_self ((m * 12 - y) * 100) (m * 12)

-- The saving that is shown of a yearly plan is a percentage that the plan saves at least, and
-- twelve times the price per month is no more than the price of the year.
pub save_percent-IsSaving :
    (yearly monthly : PremiumPlan)
    → IsSaving (save_percent yearly (some monthly)) yearly monthly
      × (per_month_price yearly.price * 12 ≤ yearly.price)
      × (save_percent yearly none ≡ none)
unfolding save_percent per_month_price
save_percent-IsSaving yearly monthly = (
  if_cases (monthly.price == 0 || not (str_eq monthly.currency_code yearly.currency_code))
      (λ o. IsSaving o yearly monthly) (λ none_shown. tt)
      (λ priced.
        if_cases (ltb 0 (floor_percent yearly.price monthly.price)) (λ o. IsSaving o yearly monthly)
          (λ saves. saving (ground (arith, priced)) (ltb→lt 0 _ saves)) (λ none_saved. tt)),
  omega arith,
  refl,
)
  where
    saving :
        0 < monthly.price
        → 0 < floor_percent yearly.price monthly.price
        → IsSaving (some (floor_percent yearly.price monthly.price)) yearly monthly
    saving priced saves =
        let m = monthly.price * 12 in
        let y = yearly.price in
        let bound = floor_percent-le yearly.price monthly.price in
        let least : 1 * m ≤ (m - y) * 100 =
          (le-div_iff_mul-le {k = m} (omega (arith, priced))).0 saves in
        (saves, div-le_of_le-mul m (omega arith), omega (arith, bound, least, priced))

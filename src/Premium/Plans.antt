-- ===== src/Premium/Plans.antt =====
-- The yearly plan beside the monthly one, and the waitlist's offer:
-- mobile/src/features/premium/utils/plans.ts and waitlistOffer.ts. Prices are natural numbers of
-- cents, and quotients are exact before they are rounded down.
pub mod Savings
pub mod Emails
use grocery_genie.Base.{
  Eq, nat_eq, string_eq, option_beq, option_beq_iff, changed, trim, is_empty, ℕ, zero, suc, ◌+◌,
  ◌-◌, ◌*◌, ◌/◌, ◌%◌, ◌≤◌, ◌<◌, String, ◌≡◌, refl, sym, ap, subst, ◌∙◌, ◌≢◌, ◌↔◌, ◌⊎◌, inl, inr,
  Bool, true, false, not, ◌&&◌, ◌||◌, Option, none, some, List, [], ◌∷◌, ◌++◌, map, append-nil,
  append_assoc, map-append, arith, str_eq, eq_iff, eq_refl, ltb, leb, ◌==◌, if◌then◌else◌, ltb→lt,
  leb→le, ==_iff, Bool-cases, if_cases, Option-cases, or_else, is_some, length, select, find, any,
  take, drop, All, length-append, All-append, All-map, All-select, All-select_of, length-take-le,
  select-append, Pairwise, Pairwise-map, find-cases,
}
use grocery_genie.Errors.{Thrown, api_error_code}
use grocery_genie.Errors.Search.{codes}
use grocery_genie.Base.Text.{is_space}
use grocery_genie.Premium.Purchases.{PremiumPlan}

-- perMonthPrice, in cents
unfoldable pub per_month_price : ℕ → ℕ
per_month_price yearly = yearly / 12

-- Math.floor((1 - y / (m * 12)) * 100), for m above 0; below 0 where y is above m * 12.
abbrev pub floor_percent : ℕ → ℕ → ℕ
floor_percent y m = (m * 12 - y) * 100 / (m * 12)

unfoldable pub save_percent : PremiumPlan → Option PremiumPlan → Option ℕ
save_percent yearly none = none
save_percent yearly (some monthly) =
    if monthly.price == 0 || not (str_eq monthly.currency_code yearly.currency_code)
    then none
    else if ltb 0 (floor_percent yearly.price monthly.price)
    then some (floor_percent yearly.price monthly.price)
    else none

pub data ClaimError : Type 0 where
  redeemed closed not_eligible invalid_link invalid_email generic : ClaimError

abbrev pub claim_error_of : Option String → ClaimError
claim_error_of none = generic
claim_error_of (some c) =
    if str_eq c "waitlist_offer_redeemed"
    then redeemed
    else if str_eq c "waitlist_offer_closed"
    then closed
    else if str_eq c "waitlist_not_eligible"
    then not_eligible
    else if str_eq c "invalid_token"
    then invalid_link
    else if str_eq c "invalid_email"
    then invalid_email
    else generic

-- claimErrorMessage, by the name of its text
unfoldable pub claim_error_message : Thrown → ClaimError
unfolding api_error_code
claim_error_message e = claim_error_of (api_error_code e)

-- A character of `[^\s@]`.
unfoldable pub plain : ℕ → Bool
plain c = not (is_space c) && not (c == b'@')

abbrev pub all_plain : List ℕ → Bool
all_plain [] = true
all_plain (c ∷ cs) = plain c && all_plain cs

abbrev pub is_nil : List ℕ → Bool
is_nil [] = true
is_nil (c ∷ cs) = false

-- A dot with something after it.
abbrev pub dot_inside : List ℕ → Bool
dot_inside [] = false
dot_inside (c ∷ cs) = (c == b'.' && not (is_nil cs)) || dot_inside cs

abbrev pub dotted : List ℕ → Bool
dotted [] = false
dotted (c ∷ cs) = dot_inside cs

-- The pattern /^[^\s@]+@[^\s@]+\.[^\s@]+$/, `seen` once a character was read before the "@".
unfoldable pub matches_email : Bool → List ℕ → Bool
matches_email seen [] = false
matches_email seen (c ∷ cs) =
    let later = matches_email true cs in
    if c == b'@' then seen && all_plain cs && dotted cs else plain c && later

unfoldable pub is_plausible_email : String → Bool
unfolding matches_email
is_plausible_email value = matches_email false (codes (trim value))

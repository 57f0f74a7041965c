-- ===== src/Premium/Upgrade.antt =====
-- What follows a purchase or a restore: mobile/src/features/premium/hooks/usePremium.ts. The
-- backend's answer to the refresh is an argument, `none` if it fails. Of the query cache the model
-- keeps the profile and which queries, by the first part of their key, the last invalidation
-- refetches.
pub mod Trust
use grocery_genie.Base.{
  Eq, nat_eq, string_eq, option_beq, option_beq_iff, changed, trim, is_empty, ℕ, zero, suc, ◌+◌,
  ◌-◌, ◌*◌, ◌/◌, ◌%◌, ◌≤◌, ◌<◌, String, ◌≡◌, refl, sym, ap, subst, ◌∙◌, ◌≢◌, ◌↔◌, ◌⊎◌, inl, inr,
  Bool, true, false, not, ◌&&◌, ◌||◌, Option, none, some, List, [], ◌∷◌, ◌++◌, map, append-nil,
  append_assoc, map-append, arith, str_eq, eq_iff, eq_refl, ltb, leb, ◌==◌, if◌then◌else◌, ltb→lt,
  leb→le, ==_iff, Bool-cases, Option-cases, or_else, is_some, length, select, find, any, take, drop,
  All, length-append, All-append, All-map, All-select, All-select_of, length-take-le, select-append,
}
use grocery_genie.Premium.Purchases.{
  PlanKind, yearly, monthly, Fault, Reply, gave, threw, IntroPrice, Package, Offering, PremiumPlan,
  Sdk, Build, Call, configured, logged_in, restored_for, bought, State, load_purchases,
  is_purchases_available, become, configure_for, with_sdk, purchases_for, error_message,
  PurchaseOutcome, purchased, cancelled, purchase_unavailable, purchase_failed, RestoreOutcome,
  restored, restore_unavailable, restore_failed, purchase_fault, bought_with, buy, purchase_premium,
  restored_with, restore, restore_premium, intro_eligible, per_unit, times, free_trial_days,
  is_eligible, eligible_in, head_of, or_first, tagged, found_in, plan_of, identifier_of, plans_of,
  offer_from, offer_with, get_premium_offer,
}

pub record UserProfile : Type 0 where
  pub id : String
  pub is_premium : Bool

pub record QueryCache : Type 0 where
  pub me : Option UserProfile
  pub invalidated : String → Bool

abbrev pub premium_in : Option UserProfile → Bool
premium_in none = false
premium_in (some p) = p.is_premium

unfoldable pub use_is_premium : QueryCache → Bool
use_is_premium c = premium_in c.me

unfoldable pub refetches : Option UserProfile → String → Bool
refetches profile key =
    not (str_eq key "premium") && (not (is_some profile) || not (str_eq key "auth"))

abbrev pub stored_profile : Option UserProfile → Option UserProfile → Option UserProfile
stored_profile none old = old
stored_profile (some p) old = some p

-- syncPremium; its result is the backend's answer.
unfoldable pub sync_premium : Option UserProfile → QueryCache → QueryCache
unfolding refetches
sync_premium answer c = record { me = stored_profile answer c.me; invalidated = refetches answer }

pub record PremiumResult (T : Type 0) : Type 0 where
  pub outcome : T
  pub premium : Bool
  pub checked : Bool

pub record App : Type 0 where
  pub store : State
  pub cache : QueryCache

abbrev pub unchecked : {T : Type 0} → T → PremiumResult T
unchecked o = record { outcome = o; premium = false; checked = false }

abbrev pub checked_by : {T : Type 0} → T → Option UserProfile → PremiumResult T
checked_by o answer = record { outcome = o; premium = premium_in answer; checked = is_some answer }

abbrev pub is_purchased : PurchaseOutcome → Bool
is_purchased purchased = true
is_purchased _ = false

abbrev pub is_restored : RestoreOutcome → Bool
is_restored restored = true
is_restored _ = false

-- The tail of both mutations.
unfoldable pub conclude :
    {T : Type 0} → Bool → T → Option UserProfile → State → QueryCache → App × PremiumResult T
unfolding sync_premium
conclude paid o answer s c =
    if paid
    then (record { store = s; cache = sync_premium answer c }, checked_by o answer)
    else (record { store = s; cache = c }, unchecked o)

unfoldable pub use_purchase_premium :
    Build → String → PremiumPlan → Option UserProfile → App → App × PremiumResult PurchaseOutcome
unfolding conclude
use_purchase_premium b u plan answer a =
    let r = purchase_premium b u plan a.store in conclude (is_purchased r.1) r.1 answer r.0 a.cache

unfoldable pub use_restore_premium :
    Build → String → Option UserProfile → App → App × PremiumResult RestoreOutcome
unfolding conclude
use_restore_premium b u answer a =
    let r = restore_premium b u a.store in conclude (is_restored r.1) r.1 answer r.0 a.cache

-- ===== src/Premium/Purchases.antt =====
-- Premium through RevenueCat: mobile/src/features/premium/services/purchases.ts. The SDK is not in
-- the repository: each of its calls is an argument that gives a value or throws. Prices are natural
-- numbers of the currency's smallest unit.
pub mod Account
pub mod Trials
use grocery_genie.Base.{
  Eq, nat_eq, string_eq, option_beq, option_beq_iff, changed, trim, is_empty, ℕ, zero, suc, ◌+◌,
  ◌-◌, ◌*◌, ◌/◌, ◌%◌, ◌≤◌, ◌<◌, String, ◌≡◌, refl, sym, ap, subst, ◌∙◌, ◌≢◌, ◌↔◌, ◌⊎◌, inl, inr,
  Bool, true, false, not, ◌&&◌, ◌||◌, Option, none, some, List, [], ◌∷◌, ◌++◌, map, append-nil,
  append_assoc, map-append, arith, str_eq, eq_iff, eq_refl, ltb, leb, ◌==◌, if◌then◌else◌, ltb→lt,
  leb→le, ==_iff, Bool-cases, Option-cases, or_else, is_some, length, select, find, any, take, drop,
  All, length-append, All-append, All-map, All-select, All-select_of, length-take-le, select-append,
}

pub data PlanKind : Type 0 where
  yearly monthly : PlanKind

-- What was thrown: its `userCancelled`, and its message if it is an Error.
pub record Fault : Type 0 where
  pub user_cancelled : Bool
  pub message : Option String

pub data Reply (A : Type 0) : Type 0 where
  gave : A → Reply A
  threw : Fault → Reply A

pub record IntroPrice : Type 0 where
  pub price : ℕ
  pub period_unit : String
  pub period_number_of_units : ℕ
  pub cycles : ℕ

pub record Package : Type 0 where
  pub identifier : String
  pub price_string : String
  pub price : ℕ
  pub currency_code : String
  pub intro_price : Option IntroPrice

pub record Offering : Type 0 where
  pub monthly : Option Package
  pub annual : Option Package
  pub available_packages : List Package

pub record PremiumPlan : Type 0 where
  pub kind : PlanKind
  pub price_string : String
  pub price : ℕ
  pub currency_code : String
  pub trial_days : Option ℕ
  pub pkg : Package

-- PurchasesModule. An eligibility is the status of a product, if the answer has one.
pub record Sdk : Type 0 where
  pub configure : String → Reply Unit
  pub log_in : String → Reply Unit
  pub get_offerings : Reply (Option Offering)
  pub eligibility : List String → Reply (String → Option ℕ)
  pub purchase_package : Package → Reply Unit
  pub restore_purchases : Reply Unit

-- The build that runs: the API key, whether it is Expo Go, and the native module if it loads.
pub record Build : Type 0 where
  pub api_key : String
  pub store_client : Bool
  pub module_default : Option Sdk

-- The calls of the SDK that took effect, with the user they were made for.
pub data Call : Type 0 where
  configured logged_in restored_for : String → Call
  bought : String → Package → Call

-- `configuredFor`, and the calls so far, newest first.
pub record State : Type 0 where
  pub configured_for : Option String
  pub calls : List Call

abbrev pub load_purchases : Build → Option Sdk
load_purchases b = if b.store_client then none else b.module_default

unfoldable pub is_purchases_available : Build → Bool
is_purchases_available b = not (str_eq b.api_key "") && is_some (load_purchases b)

abbrev pub become : String → Call → Sdk → Reply Unit → State → State × Reply (Option Sdk)
become u c sdk (threw f) s = (s, threw f)
become u c sdk (gave x) s =
    (record { configured_for = some u; calls = c ∷ s.calls }, gave (some sdk))

unfoldable pub configure_for : String → Sdk → Option String → State → State × Reply (Option Sdk)
configure_for u sdk none s = become u (configured u) sdk (sdk.configure u) s
configure_for u sdk (some c) s =
    if str_eq c u then (s, gave (some sdk)) else become u (logged_in u) sdk (sdk.log_in u) s

abbrev pub with_sdk : String → Option Sdk → State → State × Reply (Option Sdk)
unfolding configure_for
with_sdk u none s = (s, gave none)
with_sdk u (some sdk) s = configure_for u sdk s.configured_for s

unfoldable pub purchases_for : Build → String → State → State × Reply (Option Sdk)
purchases_for b u s = with_sdk u (if str_eq b.api_key "" then none else load_purchases b) s

abbrev pub error_message : Fault → String
error_message f = or_else f.message "purchase error"

pub data PurchaseOutcome : Type 0 where
  purchased cancelled purchase_unavailable : PurchaseOutcome
  purchase_failed : String → PurchaseOutcome

pub data RestoreOutcome : Type 0 where
  restored restore_unavailable : RestoreOutcome
  restore_failed : String → RestoreOutcome

abbrev pub purchase_fault : Fault → PurchaseOutcome
purchase_fault f = if f.user_cancelled then cancelled else purchase_failed (error_message f)

abbrev pub bought_with : String → Package → Reply Unit → State → State × PurchaseOutcome
bought_with u p (threw f) s = (s, purchase_fault f)
bought_with u p (gave x) s = (record s { calls = bought u p ∷ s.calls }, purchased)

abbrev pub buy : String → Package → State × Reply (Option Sdk) → State × PurchaseOutcome
buy u p (s, threw f) = (s, purchase_fault f)
buy u p (s, gave none) = (s, purchase_unavailable)
buy u p (s, gave (some sdk)) = bought_with u p (sdk.purchase_package p) s

unfoldable pub purchase_premium : Build → String → PremiumPlan → State → State × PurchaseOutcome
unfolding purchases_for
purchase_premium b u plan s = buy u plan.pkg (purchases_for b u s)

abbrev pub restored_with : String → Reply Unit → State → State × RestoreOutcome
restored_with u (threw f) s = (s, restore_failed (error_message f))
restored_with u (gave x) s = (record s { calls = restored_for u ∷ s.calls }, restored)

abbrev pub restore : String → State × Reply (Option Sdk) → State × RestoreOutcome
restore u (s, threw f) = (s, restore_failed (error_message f))
restore u (s, gave none) = (s, restore_unavailable)
restore u (s, gave (some sdk)) = restored_with u sdk.restore_purchases s

unfoldable pub restore_premium : Build → String → State → State × RestoreOutcome
unfolding purchases_for
restore_premium b u s = restore u (purchases_for b u s)

-- INTRO_ELIGIBILITY_STATUS_ELIGIBLE
abbrev pub intro_eligible : ℕ
intro_eligible = 2

abbrev pub per_unit : String → Option ℕ
per_unit unit =
    if str_eq unit "DAY"
    then some 1
    else if str_eq unit "WEEK"
    then some 7
    else if str_eq unit "MONTH"
    then some 30
    else if str_eq unit "YEAR"
    then some 365
    else none

abbrev pub times : Option ℕ → ℕ → Option ℕ
times none n = none
times (some d) n = some (d * n)

unfoldable pub free_trial_days : Option IntroPrice → Option ℕ
free_trial_days none = none
free_trial_days (some i) =
    if not (i.price == 0)
    then none
    else times (per_unit i.period_unit)
        (i.period_number_of_units * (if leb i.cycles 1 then 1 else i.cycles))

abbrev pub is_eligible : Option ℕ → Bool
is_eligible none = false
is_eligible (some s) = s == intro_eligible

-- Whether the set that eligibleForIntro returns has the product: none if the call throws.
abbrev pub eligible_in : Reply (String → Option ℕ) → String → Bool
eligible_in (threw f) i = false
eligible_in (gave by_id) i = is_eligible (by_id i)

abbrev pub head_of : List Package → Option Package
head_of [] = none
head_of (p ∷ ps) = some p

abbrev pub or_first : Option Package → Option Package → List Package → Option Package
or_first (some m) annual ps = some m
or_first none (some a) ps = none
or_first none none ps = head_of ps

abbrev pub tagged : PlanKind → Option Package → List (PlanKind × Package)
tagged k none = []
tagged k (some p) = (k, p) ∷ []

-- The packages that the offering has, yearly first.
unfoldable pub found_in : Offering → List (PlanKind × Package)
found_in o =
    tagged yearly o.annual ++ tagged monthly (or_first o.monthly o.annual o.available_packages)

unfoldable pub plan_of : (String → Bool) → PlanKind × Package → PremiumPlan
unfolding free_trial_days
plan_of eligible (k, p) = record {
  kind = k;
  price_string = p.price_string;
  price = p.price;
  currency_code = p.currency_code;
  trial_days = if eligible p.identifier then free_trial_days p.intro_price else none;
  pkg = p;
}

abbrev pub identifier_of : PlanKind × Package → String
identifier_of (k, p) = p.identifier

abbrev pub plans_of : Sdk → List (PlanKind × Package) → Option (List PremiumPlan)
unfolding plan_of
plans_of sdk [] = none
plans_of sdk (f ∷ fs) =
    some (map (plan_of (eligible_in (sdk.eligibility (map identifier_of (f ∷ fs))))) (f ∷ fs))

unfoldable pub offer_from : Sdk → Reply (Option Offering) → Option (List PremiumPlan)
unfolding found_in
offer_from sdk (threw f) = none
offer_from sdk (gave none) = none
offer_from sdk (gave (some o)) = plans_of sdk (found_in o)

abbrev pub offer_with : Reply (Option Sdk) → Option (List PremiumPlan)
unfolding offer_from
offer_with (threw f) = none
offer_with (gave none) = none
offer_with (gave (some sdk)) = offer_from sdk sdk.get_offerings

unfoldable pub get_premium_offer : Build → String → State → State × Option (List PremiumPlan)
unfolding purchases_for
get_premium_offer b u s = ((purchases_for b u s).0, offer_with (purchases_for b u s).1)

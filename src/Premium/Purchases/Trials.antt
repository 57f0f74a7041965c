-- ===== src/Premium/Purchases/Trials.antt =====
-- What the offer shows.
use grocery_genie.Base.{
  nat_eq, string_eq, String, ◌≡◌, refl, ap, subst, ◌⊎◌, inl, inr, Bool, true, Option, none, some,
  List, [], ◌∷◌, ◌++◌, map, arith, ◌==◌, ==_iff, Bool-cases, All,
}
use grocery_genie.Premium.Purchases.{
  PlanKind, yearly, monthly, Reply, gave, threw, IntroPrice, Package, Offering, PremiumPlan, Sdk,
  free_trial_days, eligible_in, or_first, tagged, found_in, plan_of, identifier_of, plans_of,
  offer_from,
}

-- A trial is shown only for a product whose free introductory offer the user may take.
abbrev pub TrialAllowed : (String → Bool) → PremiumPlan → Type 0
TrialAllowed eligible plan =
    (plan.trial_days ≡ none)
    ⊎ ((eligible plan.pkg.identifier ≡ true)
        × ((i : IntroPrice) × (plan.pkg.intro_price ≡ some i) × (i.price ≡ 0)))

-- One plan, or the yearly one and then the monthly one.
abbrev pub InOrder : List PremiumPlan → Type 0
InOrder [] = ⊥
InOrder (p ∷ []) = Unit
InOrder (p ∷ q ∷ []) = (p.kind ≡ yearly) × (q.kind ≡ monthly)
InOrder (p ∷ q ∷ r ∷ ps) = ⊥

abbrev pub Shown : (String → Bool) → PremiumPlan → Type 0
Shown eligible plan =
    TrialAllowed eligible plan
    × (plan.price ≡ plan.pkg.price)
    × (plan.currency_code ≡ plan.pkg.currency_code)

free_trial_days-free :
    (o : Option IntroPrice)
    → (free_trial_days o ≡ none) ⊎ ((i : IntroPrice) × (o ≡ some i) × (i.price ≡ 0))
unfolding free_trial_days
free_trial_days-free none = inl refl
free_trial_days-free (some i) = elim (Bool-cases (i.price == 0)) [
  | inl free ↦ inr (i, refl, ground (arith, ==_iff i.price 0))
  | inr paid ↦ rw paid (inl refl)
]

plan_of-Shown :
    (eligible : String → Bool) (k : PlanKind) (p : Package)
    → Shown eligible (plan_of eligible (k, p))
unfolding plan_of
plan_of-Shown eligible k p = (
  elim (Bool-cases (eligible p.identifier)) [
    | inl may ↦ elim (free_trial_days-free p.intro_price) [
      | inl no_trial ↦ rw may (inl no_trial)
      | inr free ↦ rw may (inr (refl, free))
    ]
    | inr no_one ↦ rw no_one (inl refl)
  ],
  refl,
  refl,
)

plans-Shown :
    (eligible : String → Bool) (fs : List (PlanKind × Package))
    → All (Shown eligible) (map (plan_of eligible) fs)
plans-Shown eligible [] = tt
plans-Shown eligible ((k, p) ∷ fs) = (plan_of-Shown eligible k p, plans-Shown eligible fs)

-- What a list of packages turns into, shown or not.
abbrev OrNone : List (PlanKind × Package) → Type 0
OrNone [] = Unit
OrNone (f ∷ fs) = (eligible : String → Bool) → InOrder (map (plan_of eligible) (f ∷ fs))

tagged-OrNone : (a m : Option Package) → OrNone (tagged yearly a ++ tagged monthly m)
unfolding plan_of
tagged-OrNone none none = tt
tagged-OrNone none (some m) = λ eligible. tt
tagged-OrNone (some a) none = λ eligible. tt
tagged-OrNone (some a) (some m) = λ eligible. (refl, refl)

abbrev pub product_of : PremiumPlan → String
product_of plan = plan.pkg.identifier

-- The plans of an offer, with what the SDK answers when it is asked about their products.
abbrev pub IsOffer : Sdk → List PremiumPlan → Type 0
IsOffer sdk plans =
    InOrder plans × All (Shown (eligible_in (sdk.eligibility (map product_of plans)))) plans

map-product_of :
    (eligible : String → Bool) (fs : List (PlanKind × Package))
    → map identifier_of fs ≡ map product_of (map (plan_of eligible) fs)
unfolding plan_of
map-product_of eligible [] = refl
map-product_of eligible ((k, p) ∷ fs) = ap (◌∷◌ p.identifier) (map-product_of eligible fs)

plans_of-IsOffer :
    (sdk : Sdk) (fs : List (PlanKind × Package)) (plans : List PremiumPlan)
    → OrNone fs
    → plans_of sdk fs ≡ some plans
    → IsOffer sdk plans
unfolding plans_of
plans_of-IsOffer sdk [] plans order e = absurd (cc)
plans_of-IsOffer sdk (f ∷ fs) plans order e =
    let eligible = eligible_in (sdk.eligibility (map identifier_of (f ∷ fs))) in
    let shown = map (plan_of eligible) (f ∷ fs) in
    let same : shown ≡ plans = cc in
    let asked : All (Shown (eligible_in (sdk.eligibility (map product_of shown)))) shown =
      subst (λ ids. All (Shown (eligible_in (sdk.eligibility ids))) shown)
        (map-product_of eligible (f ∷ fs)) (plans-Shown eligible (f ∷ fs)) in
    subst (IsOffer sdk) same (order eligible, asked)

-- The offer that the SDK's answer turns into has one plan, or a yearly one and then a monthly one;
-- each shows the price of its own package, and a trial only where the product has a free
-- introductory offer and the SDK says that the user may take it.
offer_from-IsOffer :
    (sdk : Sdk) (answer : Reply (Option Offering)) (plans : List PremiumPlan)
    → offer_from sdk answer ≡ some plans
    → IsOffer sdk plans
unfolding offer_from found_in
offer_from-IsOffer sdk (threw f) plans e = absurd (cc)
offer_from-IsOffer sdk (gave none) plans e = absurd (cc)
offer_from-IsOffer sdk (gave (some o)) plans e =
    plans_of-IsOffer sdk
      (tagged yearly o.annual ++ tagged monthly (or_first o.monthly o.annual o.available_packages))
      plans (tagged-OrNone o.annual (or_first o.monthly o.annual o.available_packages)) e

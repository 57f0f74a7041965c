-- ===== src/Premium/Purchases/Account.antt =====
-- The SDK buys and restores for the user who asks.
use grocery_genie.Base.{
  nat_eq, string_eq, String, ◌≡◌, refl, sym, ap, ◌∙◌, inl, inr, Option, none, some, List, [], ◌∷◌,
  arith, str_eq, eq_iff, if◌then◌else◌, Bool-cases,
}
use grocery_genie.Premium.Purchases.{
  Reply, gave, threw, Package, PremiumPlan, Sdk, Build, Call, configured, logged_in, restored_for,
  bought, State, load_purchases, become, configure_for, with_sdk, purchases_for, bought_with, buy,
  purchase_premium, restored_with, restore, restore_premium, get_premium_offer,
}

-- Whom the SDK acts for after these calls.
abbrev pub acting : List Call → Option String
acting [] = none
acting (configured u ∷ cs) = some u
acting (logged_in u ∷ cs) = some u
acting (restored_for u ∷ cs) = acting cs
acting (bought u p ∷ cs) = acting cs

-- Each purchase and each restore was made while the SDK acted for the user who asked for it.
abbrev pub AsUser : List Call → Type 0
AsUser [] = Unit
AsUser (configured u ∷ cs) = AsUser cs
AsUser (logged_in u ∷ cs) = AsUser cs
AsUser (restored_for u ∷ cs) = (acting cs ≡ some u) × AsUser cs
AsUser (bought u p ∷ cs) = (acting cs ≡ some u) × AsUser cs

pub record Inv (s : State) : Type 0 where
  pub known : s.configured_for ≡ acting s.calls
  pub as_user : AsUser s.calls

-- The SDK that was handed out acts for `u`.
abbrev Ready : String → State × Reply (Option Sdk) → Type 0
Ready u (s, threw f) = Inv s
Ready u (s, gave none) = Inv s
Ready u (s, gave (some sdk)) = Inv s × (acting s.calls ≡ some u)

become-Ready :
    (u : String) (c : Call) (sdk : Sdk) (r : Reply Unit) (s : State)
    → Inv s
    → acting (c ∷ s.calls) ≡ some u
    → AsUser (c ∷ s.calls)
    → Ready u (become u c sdk r s)
become-Ready u c sdk (threw f) s v a k = v
become-Ready u c sdk (gave x) s v a k = (record { known = sym a; as_user = k }, a)

configure_for-Ready :
    (u : String) (sdk : Sdk) (o : Option String) (s : State)
    → s.configured_for ≡ o
    → Inv s
    → Ready u (configure_for u sdk o s)
unfolding configure_for
configure_for-Ready u sdk none s e v =
    become-Ready u (configured u) sdk (sdk.configure u) s v refl v.as_user
configure_for-Ready u sdk (some c) s e v = elim (Bool-cases (str_eq c u)) [
  | inl same ↦ rw same (v, sym v.known ∙ e ∙ ap some (ground (arith, eq_iff c u)))
  | inr apart ↦ rw apart (become-Ready u (logged_in u) sdk (sdk.log_in u) s v refl v.as_user)
]

with_sdk-Ready : (u : String) (o : Option Sdk) (s : State) → Inv s → Ready u (with_sdk u o s)
unfolding with_sdk
with_sdk-Ready u none s v = v
with_sdk-Ready u (some sdk) s v = configure_for-Ready u sdk s.configured_for s refl v

purchases_for-Ready : (b : Build) (u : String) (s : State) → Inv s → Ready u (purchases_for b u s)
unfolding purchases_for
purchases_for-Ready b u s v =
    with_sdk-Ready u (if str_eq b.api_key "" then none else load_purchases b) s v

Ready-Inv : (u : String) (r : State × Reply (Option Sdk)) → Ready u r → Inv r.0
Ready-Inv u (s, threw f) v = v
Ready-Inv u (s, gave none) v = v
Ready-Inv u (s, gave (some sdk)) v = v.0

bought_with-Inv :
    (u : String) (p : Package) (r : Reply Unit) (s : State)
    → Inv s
    → acting s.calls ≡ some u
    → Inv (bought_with u p r s).0
bought_with-Inv u p (threw f) s v a = v
bought_with-Inv u p (gave x) s v a = record { known = v.known; as_user = (a, v.as_user) }

buy-Inv :
    (u : String) (p : Package) (r : State × Reply (Option Sdk)) → Ready u r → Inv (buy u p r).0
buy-Inv u p (s, threw f) v = v
buy-Inv u p (s, gave none) v = v
buy-Inv u p (s, gave (some sdk)) v = bought_with-Inv u p (sdk.purchase_package p) s v.0 v.1

restored_with-Inv :
    (u : String) (r : Reply Unit) (s : State)
    → Inv s
    → acting s.calls ≡ some u
    → Inv (restored_with u r s).0
restored_with-Inv u (threw f) s v a = v
restored_with-Inv u (gave x) s v a = record { known = v.known; as_user = (a, v.as_user) }

restore-Inv : (u : String) (r : State × Reply (Option Sdk)) → Ready u r → Inv (restore u r).0
restore-Inv u (s, threw f) v = v
restore-Inv u (s, gave none) v = v
restore-Inv u (s, gave (some sdk)) v = restored_with-Inv u sdk.restore_purchases s v.0 v.1

-- What the screens ask for, each with the SDK as it behaves then.
pub data Request : Type 0 where
  offers restores : Build → String → Request
  buys : Build → String → PremiumPlan → Request

unfoldable pub serve : Request → State → State
unfolding get_premium_offer restore_premium purchase_premium
serve (offers b u) s = (get_premium_offer b u s).0
serve (restores b u) s = (restore_premium b u s).0
serve (buys b u plan) s = (purchase_premium b u plan s).0

unfoldable pub serve_all : List Request → State → State
serve_all [] s = s
serve_all (r ∷ rs) s = serve_all rs (serve r s)

serve-Inv : (r : Request) (s : State) → Inv s → Inv (serve r s)
unfolding serve get_premium_offer restore_premium purchase_premium
serve-Inv (offers b u) s v = Ready-Inv u (purchases_for b u s) (purchases_for-Ready b u s v)
serve-Inv (restores b u) s v = restore-Inv u (purchases_for b u s) (purchases_for-Ready b u s v)
serve-Inv (buys b u plan) s v =
    buy-Inv u plan.pkg (purchases_for b u s) (purchases_for-Ready b u s v)

serve_all-Inv : (rs : List Request) (s : State) → Inv s → Inv (serve_all rs s)
unfolding serve_all
serve_all-Inv [] s v = v
serve_all-Inv (r ∷ rs) s v = serve_all-Inv rs (serve r s) (serve-Inv r s v)

abbrev pub unconfigured : State
unconfigured = record { configured_for = none; calls = [] }

-- However offers, purchases and restores of several users follow one another, and whatever the SDK
-- throws on the way, each purchase and restore is made while the SDK acts for the user who asked,
-- and `configuredFor` names the user the SDK acts for.
pub serve_all-unconfigured-Inv : (rs : List Request) → Inv (serve_all rs unconfigured)
serve_all-unconfigured-Inv rs =
    serve_all-Inv rs unconfigured (record { known = refl; as_user = tt })

-- ===== src/Premium/Upgrade/Trust.antt =====
-- Premium is what the backend says, never what the purchase says.
use grocery_genie.Base.{
  nat_eq, string_eq, String, ◌≡◌, ◌↔◌, ◌⊎◌, Bool, true, false, Option, arith, is_some,
}
use grocery_genie.Premium.Purchases.{PremiumPlan, Build, State, purchase_premium, restore_premium}
use grocery_genie.Premium.Upgrade.{
  UserProfile, QueryCache, premium_in, use_is_premium, sync_premium, PremiumResult, App,
  is_purchased, is_restored, conclude, use_purchase_premium, use_restore_premium,
}

-- A result says Premium exactly if the payment went through and the backend's answer says so, and
-- says checked exactly if the payment went through and the backend answered; then the profile that
-- the app keeps is that answer, and else it is the one it had.
pub record FollowsBackend {T : Type 0} (paid : Type 0) (answer : Option UserProfile)
    (before : QueryCache) (r : App × PremiumResult T) : Type 0 where
  pub premium : (r.1.premium ≡ true) ↔ (paid × (premium_in answer ≡ true))
  pub checked : (r.1.checked ≡ true) ↔ (paid × (is_some answer ≡ true))
  pub kept :
      (r.1.checked ≡ true) × (r.0.cache.me ≡ answer)
      ⊎ (r.1.checked ≡ false) × (r.0.cache.me ≡ before.me)
  pub shown : (r.1.premium ≡ false) ⊎ (use_is_premium r.0.cache ≡ true)

conclude-FollowsBackend :
    {T : Type 0} (paid : Bool) (o : T) (answer : Option UserProfile) (s : State) (c : QueryCache)
    → FollowsBackend (paid ≡ true) answer c (conclude paid o answer s c)
unfolding conclude sync_premium use_is_premium
conclude-FollowsBackend paid o answer s c = record {
  premium = ground arith;
  checked = ground arith;
  kept = ground arith;
  shown = ground arith;
}

-- After a purchase the result says Premium exactly if the purchase went through and the backend's
-- answer says so, and the app then shows Premium; without an answer the profile stays as it was.
use_purchase_premium-FollowsBackend :
    (b : Build) (u : String) (plan : PremiumPlan) (answer : Option UserProfile) (a : App)
    → let r = use_purchase_premium b u plan answer a in
      FollowsBackend (is_purchased (purchase_premium b u plan a.store).1 ≡ true) answer a.cache r
unfolding use_purchase_premium
use_purchase_premium-FollowsBackend b u plan answer a =
    let r = purchase_premium b u plan a.store in
    conclude-FollowsBackend (is_purchased r.1) r.1 answer r.0 a.cache

-- After a restore the result says Premium exactly if the restore went through and the backend's
-- answer says so, and the app then shows Premium; without an answer the profile stays as it was.
use_restore_premium-FollowsBackend :
    (b : Build) (u : String) (answer : Option UserProfile) (a : App)
    → let r = use_restore_premium b u answer a in
      FollowsBackend (is_restored (restore_premium b u a.store).1 ≡ true) answer a.cache r
unfolding use_restore_premium
use_restore_premium-FollowsBackend b u answer a =
    let r = restore_premium b u a.store in
    conclude-FollowsBackend (is_restored r.1) r.1 answer r.0 a.cache

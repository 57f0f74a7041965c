-- ===== src/Budget/Caps/Banner.antt =====
-- Whom the banner names, and when there is one.
use native.Mathlib.Nat.{mul-le-mul_right, le_of_mul-le-mul_right, mul_comm, mul_assoc}
use grocery_genie.Base.{
  nat_eq, string_eq, ℕ, ◌*◌, ◌≤◌, ◌<◌, String, ◌≡◌, refl, sym, ap, ◌∙◌, ◌↔◌, ◌⊎◌, Bool, true, false,
  ◌&&◌, none, List, [], ◌∷◌, arith, ltb, if◌then◌else◌, leb→le, length, select, All, All-map,
  All-select,
}
use grocery_genie.Base.Sorting.{
  Order, Ascending, sort_by-All, select-sort_by, length-sort_by, sort_by-Ascending,
}
use grocery_genie.Reports.{Date}
use grocery_genie.Budget.Caps.{
  CapSpend, breached, further_over, breached_first, banner, cap_breach_message, DashboardData,
  on_track, over, in_use, spends_more, ranked, filled, is_over, breach_message,
}

swap_last : (a b c : ℕ) → a * b * c ≡ a * c * b
swap_last a b c = mul_assoc a b c ∙ ap (λ k. a * k) (mul_comm b c) ∙ sym (mul_assoc a c b)

-- Quotients with denominators above 0 are compared by their cross products.
ratio_trans : (s t u a b c : ℕ) → 0 < b → t * a ≤ s * b → u * b ≤ t * c → u * a ≤ s * c
ratio_trans s t u a b c h first second =
    let one = mul-le-mul_right c first in
    let two = mul-le-mul_right a second in
    le_of_mul-le-mul_right {k = b}
      (omega (arith, one, two, swap_last u a b, swap_last t a c, swap_last s b c)) h

furthest : Order CapSpend
furthest = record {
  Valid = λ c. 0 < c.cap;
  le = further_over;
  total = λ a b h. ground (arith, h);
  trans = λ a b c va vb vc first second. ground (
    arith,
    ratio_trans a.spent b.spent c.spent a.cap b.cap c.cap vb (leb→le _ _ first) (leb→le _ _ second),
  );
}

breached-valid : (cs : List CapSpend) → All (λ c. 0 < c.cap) (select breached cs)
breached-valid cs =
    All-map (λ c. breached c ≡ true) (λ c. 0 < c.cap) (λ c h. ground (arith, h))
      (select breached cs) (All-select breached cs)

breached_count : (cs : List CapSpend) → length (breached_first cs) ≡ length (select breached cs)
unfolding breached_first
breached_count cs = length-sort_by further_over (select breached cs)

-- The banner names the categories over their caps, each as often as the screen has it, furthest
-- over its cap first.
pub breached_first-Ascending :
    (p : CapSpend → Bool) (cs : List CapSpend)
    → Ascending further_over (breached_first cs)
      × All (λ c. (0 < c.cap) × (c.cap < c.spent)) (breached_first cs)
      × (length (select p (breached_first cs)) ≡ length (select p (select breached cs)))
unfolding breached_first furthest
breached_first-Ascending p cs = (
  sort_by-Ascending furthest (select breached cs) (breached-valid cs),
  sort_by-All further_over (λ c. (0 < c.cap) × (c.cap < c.spent)) (select breached cs)
      (All-map (λ c. breached c ≡ true) (λ c. (0 < c.cap) × (c.cap < c.spent))
        (λ c h. ground (arith, h)) (select breached cs) (All-select breached cs)),
  select-sort_by further_over p (select breached cs),
)

banner-none :
    (cs : List CapSpend) (o : Bool) → (banner cs o ≡ none) ↔ ((length cs ≡ 0) × (o ≡ false))
banner-none [] o = ground arith
banner-none (c ∷ []) o = ground arith
banner-none (c ∷ d ∷ ds) o = ground arith

breached-in_use :
    (cs : List CapSpend) → length (select breached (select in_use cs)) ≡ length (select breached cs)
breached-in_use [] = refl
breached-in_use (c ∷ cs) = ground (arith, breached-in_use cs)

-- The budget screen shows the banner exactly if a category of the server's answer is over its cap,
-- or the spending is over a budget that is set.
pub breach_message-none_iff :
    (name_leb : String → String → Bool) (d : DashboardData) (now : Date)
    → (breach_message (filled name_leb d now) ≡ none)
      ↔ ((length (select breached d.categories) ≡ 0) × ((d.budget ≡ 0) ⊎ (d.spent ≤ d.budget)))
unfolding breach_message cap_breach_message filled ranked
breach_message-none_iff name_leb d now =
    let shown = breached_first (ranked name_leb d.categories) in
    let crossed = if ltb 0 d.budget && ltb d.budget d.spent then over else on_track in
    let same : length shown ≡ length (select breached d.categories) =
      breached_count (ranked name_leb d.categories)
      ∙ select-sort_by (spends_more name_leb) breached (select in_use d.categories)
      ∙ breached-in_use d.categories in
    let shown_none = banner-none shown (is_over crossed) in
    (
      (λ no. (omega (arith, same, (shown_none.0 no).0), ground (arith, (shown_none.0 no).1))),
      (λ within. shown_none.1 (omega (arith, same, within.0), ground (arith, within.1))),
    )

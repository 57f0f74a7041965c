-- ===== src/Budget/Caps.antt =====
-- The banner of the budget screen when caps are crossed, and what the screen shows of the server's
-- answer: mobile/src/features/budget/utils/capBreach.ts and adaptDashboard of
-- mobile/app/(tabs)/(budget)/index.tsx. Amounts are natural numbers of cents; `name_leb a b` says
-- that a.localeCompare(b) is not positive.
pub mod Banner
use Prim.Native.String.{◌++◌ as append}
use grocery_genie.Base.{
  Eq, nat_eq, string_eq, option_beq, option_beq_iff, changed, trim, is_empty, ℕ, zero, suc, ◌+◌,
  ◌-◌, ◌*◌, ◌/◌, ◌%◌, ◌≤◌, ◌<◌, String, ◌≡◌, refl, sym, ap, subst, ◌∙◌, ◌≢◌, ◌↔◌, ◌⊎◌, inl, inr,
  Bool, true, false, not, ◌&&◌, ◌||◌, Option, none, some, List, [], ◌∷◌, ◌++◌, map, append-nil,
  append_assoc, map-append, arith, str_eq, eq_iff, eq_refl, ltb, leb, ◌==◌, if◌then◌else◌, ltb→lt,
  leb→le, ==_iff, Bool-cases, if_cases, Option-cases, or_else, is_some, length, select, find, any,
  take, drop, All, length-append, All-append, All-map, All-select, All-select_of, length-take-le,
  select-append, Pairwise, Pairwise-map,
}
use grocery_genie.Base.Sorting.{sort_by}
use grocery_genie.Base.Int.{ℤ}
use grocery_genie.Reports.{Month, Date}
use grocery_genie.Budget.Period.{
  PeriodName, Share, PeriodBounds, period_bounds, period_heading, period_ring_name,
  period_days_left, period_share_elapsed,
}

pub record CapSpend : Type 0 where
  pub id : String
  pub name : String
  pub spent : ℕ
  pub cap : ℕ

abbrev pub breached : CapSpend → Bool
breached c = ltb 0 c.cap && ltb c.cap c.spent

-- b.spent / b.cap - a.spent / a.cap is not positive
abbrev pub further_over : CapSpend → CapSpend → Bool
further_over a b = leb (b.spent * a.cap) (a.spent * b.cap)

abbrev pub and_last : String → List String → String
and_last n [] = n
and_last n (m ∷ []) = append n (append " and " m)
and_last n (m ∷ k ∷ ks) = append n (append ", " (and_last m (k ∷ ks)))

-- "A", "A and B", "A, B and C"
abbrev pub join_names : List String → String
join_names [] = ""
join_names (n ∷ ns) = and_last n ns

-- ACTION
abbrev pub action : String
action = "Adjust limits."

abbrev pub name_of : CapSpend → String
name_of c = c.name

unfoldable pub breached_first : List CapSpend → List CapSpend
breached_first categories = sort_by further_over (select breached categories)

abbrev pub banner : List CapSpend → Bool → Option String
banner [] overall_over =
    if overall_over then some (append "You’re over your monthly budget. " action) else none
banner (c ∷ []) overall_over = some (append c.name (append " crossed its cap. " action))
banner (c ∷ d ∷ ds) overall_over =
    some (append (join_names (map name_of (c ∷ d ∷ ds))) (append " crossed their caps. " action))

unfoldable pub cap_breach_message : List CapSpend → Bool → Option String
unfolding breached_first
cap_breach_message categories overall_over = banner (breached_first categories) overall_over

-- The answer of the server, as far as the screen reads it.
pub record DashboardData : Type 0 where
  pub period : Month
  pub period_start : Option Date
  pub period_end : Option Date
  pub budget : ℕ
  pub spent : ℕ
  pub rolled_over : Option ℕ
  pub categories : List CapSpend
  pub has_receipts : Bool

pub data BudgetState : Type 0 where
  on_track over : BudgetState

pub record Filled : Type 0 where
  pub state : BudgetState
  pub period_label : PeriodName × Option ℤ
  pub ring_name : PeriodName
  pub spent : ℕ
  pub cap : ℕ
  pub rolled_over : ℕ
  pub days_left : ℤ
  pub month_share : Share
  pub categories : List CapSpend

-- `none` is the state for a new account.
abbrev pub View : Type 0
View = Option Filled

abbrev pub in_use : CapSpend → Bool
in_use c = ltb 0 c.spent || ltb 0 c.cap

abbrev pub is_nil : List CapSpend → Bool
is_nil [] = true
is_nil (c ∷ cs) = false

module _ (name_leb : String → String → Bool) where
  -- b.spent - a.spent || a.name.localeCompare(b.name)
  abbrev pub spends_more : CapSpend → CapSpend → Bool
  spends_more a b =
      if ltb b.spent a.spent
      then true
      else if ltb a.spent b.spent
      then false
      else name_leb a.name b.name

  unfoldable pub ranked : List CapSpend → List CapSpend
  ranked categories = sort_by spends_more (select in_use categories)

  unfoldable pub filled : DashboardData → Date → Filled
  unfolding ranked period_bounds period_heading period_ring_name period_days_left
      period_share_elapsed
  filled d now =
      let bounds = period_bounds d.period d.period_start d.period_end in
      record {
        state = if ltb 0 d.budget && ltb d.budget d.spent then over else on_track;
        period_label = period_heading bounds now;
        ring_name = period_ring_name bounds;
        spent = d.spent;
        cap = d.budget;
        rolled_over = if ltb 0 d.budget then or_else d.rolled_over 0 else 0;
        days_left = period_days_left bounds now;
        month_share = period_share_elapsed bounds now;
        categories = ranked d.categories;
      }

  abbrev pub is_new_account : DashboardData → Bool
  is_new_account d =
      not (ltb 0 d.budget) && not (ltb 0 d.spent || not (is_nil d.categories)) && not d.has_receipts

  unfoldable pub adapt_dashboard : Option DashboardData → Date → View
  unfolding filled
  adapt_dashboard none now = none
  adapt_dashboard (some d) now = if is_new_account d then none else some (filled d now)

abbrev pub is_over : BudgetState → Bool
is_over over = true
is_over on_track = false

-- The banner over a filled screen.
unfoldable pub breach_message : Filled → Option String
unfolding cap_breach_message
breach_message f = cap_breach_message f.categories (is_over f.state)

-- ===== src/Budget/Settings.antt =====
-- The budget settings: mobile/app/budget-settings.tsx. Amounts are natural numbers of cents. The calls
-- to the server and of the router are recorded; the server is given by its answer to each call.
pub mod Stops
pub mod Unchanged
use grocery_genie.Base.{
  Eq, nat_eq, string_eq, option_beq, option_beq_iff, changed, trim, is_empty, ℕ, zero, suc, ◌+◌,
  ◌-◌, ◌*◌, ◌/◌, ◌%◌, ◌≤◌, ◌<◌, String, ◌≡◌, refl, sym, ap, subst, ◌∙◌, ◌≢◌, ◌↔◌, ◌⊎◌, inl, inr,
  Bool, true, false, not, ◌&&◌, ◌||◌, Option, none, some, List, [], ◌∷◌, ◌++◌, map, append-nil,
  append_assoc, map-append, arith, str_eq, eq_iff, eq_refl, ltb, leb, ◌==◌, if◌then◌else◌, ltb→lt,
  leb→le, ==_iff, Bool-cases, if_cases, Option-cases, or_else, is_some, length, select, find, any,
  take, drop, All, length-append, All-append, All-map, All-select, All-select_of, length-take-le,
  select-append, Pairwise, Pairwise-map, find-cases,
}
use grocery_genie.Errors.{Thrown}
use grocery_genie.Reports.Download.{is_premium_required}

-- BudgetResponse; of its first period the day is kept.
pub record Budget : Type 0 where
  pub id : String
  pub category_id : Option String
  pub amount : ℕ
  pub start_day : ℕ
  pub rollover_enabled : Bool

-- b.category_id ?? ''
abbrev pub key_of : Budget → String
key_of b = or_else b.category_id ""

-- `saved.get(key)`: the last budget with the key
unfoldable pub saved_for : String → List Budget → Option Budget
saved_for k [] = none
saved_for k (b ∷ bs) =
    let later = saved_for k bs in
    if is_some later then later else if str_eq (key_of b) k then some b else none

-- A JavaScript object or Map: setting a key keeps its place.
module _ {V : Type 0} where
  unfoldable pub put : String → V → List (String × V) → List (String × V)
  put k v [] = (k, v) ∷ []
  put k v ((l, w) ∷ ps) = let rest = put k v ps in if str_eq l k then (l, v) ∷ ps else (l, w) ∷ rest

  unfoldable pub lookup : String → List (String × V) → Option V
  lookup k [] = none
  lookup k ((l, w) ∷ ps) = let rest = lookup k ps in if str_eq l k then some w else rest

  -- Object.fromEntries, with the entries `acc` set before
  unfoldable pub from_entries : List (String × V) → List (String × V) → List (String × V)
  unfolding put
  from_entries acc [] = acc
  from_entries acc ((k, v) ∷ ps) = from_entries (put k v acc) ps

-- The form, with the texts of the inputs.
pub record Form : Type 0 where
  pub overall : String
  pub start_day : String
  pub cat_amounts : List (String × String)
  pub rollover : List (String × Bool)

pub data Call : Type 0 where
  update : String → ℕ → Option ℕ → Call
  delete : String → Call
  create : Option String → ℕ → ℕ → Call
  set_rollover : String → Bool → Call

pub data Answer : Type 0 where
  done : Option String → Answer
  refused : Thrown → Answer

abbrev pub error_of : Answer → Option Thrown
error_of (done id) = none
error_of (refused e) = some e

-- What a save has done so far: its calls, the budgets it ends up with, and the error that stopped it.
pub record Progress : Type 0 where
  pub calls : List Call
  pub saved_ids : List (String × String)
  pub error : Option Thrown

abbrev pub begun : Progress
begun = record { calls = []; saved_ids = []; error = none }

abbrev pub is_overall : Budget → Bool
is_overall b = not (is_some b.category_id)

abbrev pub of_category : Budget → Bool
of_category b = is_some b.category_id

-- Math.min(Math.max(parseInt(text, 10) || 1, 1), 28), of the number that is read
unfoldable pub clamped : ℕ → ℕ
clamped n = if ltb n 1 then 1 else if ltb 28 n then 28 else n

abbrev pub same_switch : Bool → Bool → Bool
same_switch true b = b
same_switch false b = not b

unfoldable pub note_id : String → String → Progress → Progress
unfolding put
note_id k i p = if is_some p.error then p else record p { saved_ids = put k i p.saved_ids }

abbrev pub note_created : String → Answer → Progress → Progress
unfolding note_id
note_created k (refused e) p = p
note_created k (done none) p = p
note_created k (done (some i)) p = if is_empty i then p else note_id k i p

abbrev pub rolls_over : Option Budget → Bool
rolls_over none = false
rolls_over (some b) = b.rollover_enabled

pub data Outcome : Type 0 where
  went_back paywall alerted : Outcome

unfoldable pub outcome_of : Option Thrown → Outcome
unfolding is_premium_required
outcome_of none = went_back
outcome_of (some e) = if is_premium_required e then paywall else alerted

-- `day_text` and `amount_text` print a number, `read_day` and `parse_amount` read one, 0 where there
-- is none above 0.
pub record Numerals : Type 0 where
  pub day_text : ℕ → String
  pub read_day : String → ℕ
  pub amount_text : ℕ → String
  pub parse_amount : String → ℕ

module _ (nums : Numerals) where
  abbrev pub clamped_start_day : String → ℕ
  unfolding clamped
  clamped_start_day text = clamped (nums.read_day text)

  abbrev pub start_day_of : Option Budget → String
  start_day_of none = "1"
  start_day_of (some b) = nums.day_text b.start_day

  abbrev pub overall_text : Option Budget → String
  overall_text none = ""
  overall_text (some b) = nums.amount_text b.amount

  abbrev pub amount_entry : Budget → String × String
  amount_entry b = (key_of b, nums.amount_text b.amount)

  abbrev pub rollover_entry : Budget → String × Bool
  rollover_entry b = (key_of b, b.rollover_enabled)

  -- The form when the saved budgets first arrive.
  unfoldable pub prefill : List Budget → Form
  unfolding from_entries
  prefill budgets =
      let overall = find is_overall budgets in
      record {
        overall = overall_text overall;
        start_day = start_day_of overall;
        cat_amounts = from_entries [] (map amount_entry (select of_category budgets));
        rollover = from_entries [] (map rollover_entry budgets);
      }

  module _ (answer : ℕ → Answer) where
    -- `await`: after an error nothing more is sent
    unfoldable pub send : Call → Progress → Progress
    send c p =
        if is_some p.error
        then p
        else record p { calls = p.calls ++ c ∷ []; error = error_of (answer (length p.calls)) }

    unfoldable pub send_create : String → Call → Progress → Progress
    send_create k c p = note_created k (answer (length p.calls)) (send c p)

    unfoldable pub save_overall : ℕ → ℕ → Option Budget → Progress → Progress
    save_overall wanted day none p =
        if ltb 0 wanted then send_create "" (create none wanted day) p else p
    save_overall wanted day (some b) p =
        let amount = if ltb 0 wanted then wanted else b.amount in
        let start_changed = not (day == clamped (nums.read_day (nums.day_text b.start_day))) in
        note_id "" b.id (
          if not (amount == b.amount) || start_changed
          then send (update b.id amount (if start_changed then some day else none)) p
          else p)

    unfoldable pub save_category : ℕ → String → ℕ → Option Budget → Progress → Progress
    save_category day k wanted none p =
        if ltb 0 wanted then send_create k (create (some k) wanted day) p else p
    save_category day k wanted (some b) p =
        if wanted == 0
        then send (delete b.id) p
        else note_id k b.id (if wanted == b.amount then p else send (update b.id wanted none) p)

    unfoldable pub save_categories : ℕ → List Budget → List (String × String) → Progress → Progress
    save_categories day budgets [] p = p
    save_categories day budgets ((k, text) ∷ ps) p =
        save_categories day budgets ps
          (save_category day k (nums.parse_amount text) (saved_for k budgets) p)

    unfoldable pub save_rollovers :
        List (String × Bool) → List Budget → List (String × String) → Progress → Progress
    save_rollovers switches budgets [] p = p
    save_rollovers switches budgets ((k, i) ∷ ps) p =
        let enabled = or_else (lookup k switches) false in
        let same = same_switch enabled (rolls_over (saved_for k budgets)) in
        save_rollovers switches budgets ps (if same then p else send (set_rollover i enabled) p)

    -- The `try` of handleSave
    unfoldable pub save_all : Bool → Form → List Budget → Progress
    save_all is_premium form budgets =
        let day = clamped_start_day form.start_day in
        let p =
          save_categories day budgets form.cat_amounts
            (save_overall (nums.parse_amount form.overall) day (saved_for "" budgets) begun) in
        if is_premium then save_rollovers form.rollover budgets p.saved_ids p else p

    unfoldable pub handle_save : Bool → Form → List Budget → List Call × Outcome
    handle_save is_premium form budgets =
        let p = save_all is_premium form budgets in (p.calls, outcome_of p.error)

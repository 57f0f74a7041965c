-- ===== src/Budget/Tests.antt =====
-- Trends, the days of a period and the banner on small examples.
use grocery_genie.Base.{
  nat_eq, string_eq, ℕ, zero, suc, ◌+◌, ◌-◌, ◌≤◌, String, ◌≡◌, refl, ap, ◌↔◌, ◌⊎◌, Bool, true,
  false, Option, none, some, List, [], ◌∷◌, arith, eq_iff, ltb, if◌then◌else◌, length, select,
}
use grocery_genie.Errors.{Thrown, other, api_error_code}
use grocery_genie.Reports.Download.{is_premium_required}
use grocery_genie.Budget.Settings.{
  Budget, saved_for, put, Form, update, delete, Answer, done, refused, clamped, note_id, went_back,
  alerted, outcome_of, Numerals, prefill, send, send_create, save_overall, save_category,
  save_categories, save_rollovers, save_all, handle_save,
}
use grocery_genie.Budget.Settings.Stops.{EndsWith, StopsAtError, handle_save-StopsAtError}
use grocery_genie.Budget.Settings.Unchanged.{AreSaved, prefill-handle_save}
use grocery_genie.Budget.{up, down, percent_change}
use grocery_genie.Budget.Period.{PeriodBounds}
use grocery_genie.Budget.Period.Elapsed.{IsWithin, period_days-IsWithin}
use grocery_genie.Calendar.{day_number, days_before_year, days_of_months}
use grocery_genie.Reports.{Date, last_day}
use grocery_genie.Budget.Caps.{breached, DashboardData, filled, breach_message}
use grocery_genie.Budget.Caps.Banner.{breach_message-none_iff}

rounds : percent_change 10250 10000 ≡ some (up 3)
unfolding percent_change
rounds = refl

rounds_down : percent_change 9750 10000 ≡ some (down 2)
unfolding percent_change
rounds_down = refl

abbrev october : PeriodBounds
october = record {
  start = record { year = 2026; month = 10; day = 15 };
  end = record { year = 2026; month = 11; day = 14 };
}

abbrev november_2 : Date
november_2 = record { year = 2026; month = 11; day = 2 }

period_days-IsWithin_example :
    IsWithin october november_2
      (day_number november_2 - day_number october.start + 1)
      (day_number october.end - day_number november_2)
      (day_number october.end - day_number october.start + 1)
period_days-IsWithin_example = period_days-IsWithin october november_2 begun_before ends_after
  where
    begun_before : day_number october.start ≤ day_number november_2
    begun_before = unfold day_number days_before_year days_of_months last_day in ground arith

    ends_after : day_number november_2 ≤ day_number october.end
    ends_after = unfold day_number days_before_year days_of_months last_day in ground arith

abbrev dashboard : DashboardData
dashboard = record {
  period = record { year = 2026; month = 10 };
  period_start = some october.start;
  period_end = some october.end;
  budget = 40000;
  spent = 24200;
  rolled_over = none;
  categories =
      record { id = "c1"; name = "Snacks"; spent = 5100; cap = 5000 }
      ∷ record { id = "c2"; name = "Pet"; spent = 1000; cap = 0 }
      ∷ [];
  has_receipts = true;
}

abbrev any_name : String → String → Bool
any_name a b = true

breach_message-none_iff_example :
    (breach_message (filled any_name dashboard october.start) ≡ none) ↔ (
      (length (select breached dashboard.categories) ≡ 0)
      × ((dashboard.budget ≡ 0) ⊎ (dashboard.spent ≤ dashboard.budget)))
breach_message-none_iff_example = breach_message-none_iff any_name dashboard october.start

abbrev limit : String → Option String → ℕ → Budget
limit i category amount = record {
  id = i;
  category_id = category;
  amount = amount;
  start_day = 15;
  rollover_enabled = false;
}

abbrev limits : List Budget
limits = limit "b1" none 9 ∷ limit "b2" (some "pet") 5 ∷ limit "b3" (some "snacks") 3 ∷ []

-- Numbers as tally marks.
abbrev tally : ℕ → String
tally zero = ""
tally (suc n) = String.◌∷◌ "1" (tally n)

abbrev marks : String → ℕ
marks String.[] = 0
marks (String.◌∷◌ c s) = suc (marks s)

marks-tally : (n : ℕ) → marks (tally n) ≡ n
marks-tally zero = refl
marks-tally (suc n) = ap suc (marks-tally n)

abbrev tallies : Numerals
tallies = record { day_text = tally; read_day = marks; amount_text = tally; parse_amount = marks }

abbrev offline_after_two : ℕ → Answer
offline_after_two n = if ltb n 2 then done (some "b4") else refused other

limits-AreSaved : AreSaved limits
limits-AreSaved = ground (arith, eq_iff "pet" "", eq_iff "snacks" "", eq_iff "snacks" "pet")

prefill-handle_save_example :
    let r = handle_save tallies offline_after_two true (prefill tallies limits) limits in
    (r.0 ≡ []) × (r.1 ≡ went_back)
prefill-handle_save_example =
    prefill-handle_save tallies offline_after_two true limits
      (record { amounts = marks-tally; no_amount = refl }) limits-AreSaved

abbrev edited : Form
edited = record {
  overall = "";
  start_day = "1";
  cat_amounts = ("pet", "") ∷ ("snacks", "11") ∷ ("other", "1") ∷ [];
  rollover = [];
}

stops_offline :
    handle_save tallies offline_after_two false edited limits
    ≡ (update "b1" 9 (some 1) ∷ delete "b2" ∷ update "b3" 2 none ∷ [], alerted)
unfolding handle_save save_all save_overall save_categories save_category save_rollovers send
    note_id send_create outcome_of saved_for put clamped is_premium_required api_error_code
stops_offline = refl

handle_save-StopsAtError_example :
    let r = handle_save tallies offline_after_two false edited limits in
    (error : Option Thrown) × StopsAtError tallies offline_after_two r.0 error × EndsWith error r.1
handle_save-StopsAtError_example =
    handle_save-StopsAtError tallies offline_after_two false edited limits

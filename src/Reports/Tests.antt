-- ===== src/Reports/Tests.antt =====
-- Ranges and exports on small examples.
use grocery_genie.Base.{nat_eq, string_eq, ◌≤◌, ◌≡◌, refl, true, false, List, [], ◌∷◌, All}
use grocery_genie.Reports.{Month, Date, last_day}
use grocery_genie.Reports.Export.{
  receipts, prices, budgets, count_on, counted, open_export, from_month, Step, month_picked,
  toggled, export_pressed, run,
}
use grocery_genie.Reports.Download.{Files}
use grocery_genie.Reports.Export.Requests.{IsSendable, run-open_export-Inv}

february : last_day (record { year = 2028; month = 2 }) ≡ 29
unfolding last_day
february = refl

abbrev march : Month
march = record { year = 2026; month = 3 }

abbrev today : Date
today = record { year = 2026; month = 3; day = 31 }

abbrev taps : List Step
taps =
    toggled receipts false
    ∷ toggled prices false
    ∷ toggled budgets false
    ∷ month_picked from_month march
    ∷ export_pressed (counted 3)
    ∷ []

run-open_export-Inv_example :
    let s = run today taps (open_export today) in (1 ≤ count_on s.includes) × All IsSendable s.sent
run-open_export-Inv_example = run-open_export-Inv today taps

-- An earlier export left its copy, and the server refuses this one.
abbrev left_over : Files
left_over = record { cached = true; shared = 0; profile_stale = false }

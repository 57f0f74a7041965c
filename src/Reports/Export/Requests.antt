-- ===== src/Reports/Export/Requests.antt =====
-- What the export screen sends, and what an export leaves in the cache.
use grocery_genie.Base.{
  nat_eq, string_eq, ◌+◌, ◌*◌, ◌%◌, ◌≤◌, ◌≡◌, refl, ◌≢◌, ◌⊎◌, Bool, true, false, ◌&&◌, ◌||◌, Option,
  none, some, List, [], ◌∷◌, arith, ◌==◌, leb→le, ==_iff, if_cases, length, All, All-append,
}
use grocery_genie.Reports.{Month, Date, last_day, range_dates, range_is_valid}
use grocery_genie.Reports.Export.{
  ExportInclude, receipts, prices, budgets, images, Includes, is_on, set_include, chosen, count_on,
  ExportRequest, Summary, ExportScreen, open_export, months_shown, pick_period, pick_month, toggle,
  disabled, start_export, Step, period_picked, month_picked, format_picked, toggled, export_pressed,
  export_answered, step, run,
}
use grocery_genie.Reports.Download.{
  Download, is_premium_required, Exported, shared_file, failed_with, Me, premium, unread,
}

-- The lengths of the months, February's by the rule for leap years.
abbrev pub IsLastDay : Date → Type 0
IsLastDay d =
    ((d.month ≢ 2) × (d.month ≢ 4) × (d.month ≢ 6) × (d.month ≢ 9) × (d.month ≢ 11) × (d.day ≡ 31))
    ⊎ (((d.month ≡ 4) ⊎ (d.month ≡ 6) ⊎ (d.month ≡ 9) ⊎ (d.month ≡ 11)) × (d.day ≡ 30))
    ⊎ ((d.month ≡ 2)
        × (((d.day ≡ 29) × (d.year % 4 ≡ 0) × ((d.year % 100 ≢ 0) ⊎ (d.year % 400 ≡ 0)))
            ⊎ ((d.day ≡ 28) × ((d.year % 4 ≢ 0) ⊎ ((d.year % 100 ≡ 0) × (d.year % 400 ≢ 0))))))

-- The first of two days does not lie in a later month, months being counted from year 0.
abbrev pub InOrder : Date → Date → Type 0
InOrder f t = f.year * 12 + f.month ≤ t.year * 12 + t.month

-- Whole months: no bounds, or the first day of a month and the last day of that or a later one; one
-- of the two bounds may be missing.
abbrev pub AreWholeMonths : Option Date → Option Date → Type 0
AreWholeMonths none none = Unit
AreWholeMonths none (some t) = IsLastDay t
AreWholeMonths (some f) none = f.day ≡ 1
AreWholeMonths (some f) (some t) = (f.day ≡ 1) × IsLastDay t × InOrder f t

-- A request that may be sent: it includes something, and its range is of whole months.
pub record IsSendable (r : ExportRequest) : Type 0 where
  pub whole : AreWholeMonths r.from r.to
  pub something : 1 ≤ length r.includes

abbrev Inv : ExportScreen → Type 0
Inv s = (1 ≤ count_on s.includes) × All IsSendable s.sent

chosen-count : (i : Includes) → length (chosen i) ≡ count_on i
unfolding chosen
chosen-count i = ground arith

toggle-Inv : (k : ExportInclude) (on : Bool) (s : ExportScreen) → Inv s → Inv (toggle k on s)
unfolding toggle
toggle-Inv k on s inv =
    if_cases (s.pending || (is_on k s.includes && count_on s.includes == 1)) Inv (λ off. inv)
      (λ can. (set_include-some k on s.includes inv.0 (ground (arith, can)), inv.1))
  where
    set_include-some :
        (k : ExportInclude) (on : Bool) (i : Includes)
        → 1 ≤ count_on i
        → (is_on k i && count_on i == 1) ≡ false
        → 1 ≤ count_on (set_include k on i)
    set_include-some receipts on i h can = ground (arith, h, can)
    set_include-some prices on i h can = ground (arith, h, can)
    set_include-some budgets on i h can = ground (arith, h, can)
    set_include-some images on i h can = ground (arith, h, can)

last_day-IsLastDay :
    (m : Month) → IsLastDay (record { year = m.year; month = m.month; day = last_day m })
unfolding last_day
last_day-IsLastDay m = ground (
  arith,
  ==_iff m.month 2,
  ==_iff m.month 4,
  ==_iff m.month 6,
  ==_iff m.month 9,
  ==_iff m.month 11,
  ==_iff (m.year % 4) 0,
  ==_iff (m.year % 100) 0,
  ==_iff (m.year % 400) 0,
)

range_dates-AreWholeMonths :
    (from to : Option Month)
    → range_is_valid from to ≡ true
    → let dates = range_dates from to in AreWholeMonths dates.0 dates.1
unfolding range_dates range_is_valid
range_dates-AreWholeMonths none none valid = tt
range_dates-AreWholeMonths none (some t) valid = last_day-IsLastDay t
range_dates-AreWholeMonths (some f) none valid = refl
range_dates-AreWholeMonths (some f) (some t) valid = (refl, last_day-IsLastDay t, leb→le _ _ valid)

start_export-Inv :
    (now : Date) (summary : Summary) (s : ExportScreen)
    → disabled now summary s ≡ false
    → Inv s
    → Inv (start_export now s)
unfolding start_export disabled
start_export-Inv now summary s can inv = (
  inv.0,
  All-append IsSendable s.sent _ inv.1 (
    record {
      whole =
          range_dates-AreWholeMonths (months_shown now s).from (months_shown now s).to
            (ground (arith, can));
      something = omega (arith, inv.0, chosen-count s.includes);
    },
    tt,
  ),
)

step-Inv : (now : Date) (x : Step) (s : ExportScreen) → Inv s → Inv (step now x s)
unfolding step
step-Inv now (period_picked p) s inv = unfold pick_period in inv
step-Inv now (month_picked w m) s inv = unfold pick_month in inv
step-Inv now (format_picked f) s inv = if_cases s.pending Inv (λ busy. inv) (λ free. inv)
step-Inv now (toggled k on) s inv = toggle-Inv k on s inv
step-Inv now (export_pressed summary) s inv =
    if_cases (disabled now summary s) Inv (λ off. inv)
      (λ can. start_export-Inv now summary s can inv)
step-Inv now export_answered s inv = inv

run-Inv : (now : Date) (xs : List Step) (s : ExportScreen) → Inv s → Inv (run now xs s)
unfolding run
run-Inv now [] s inv = inv
run-Inv now (x ∷ xs) s inv = run-Inv now xs (step now x s) (step-Inv now x s inv)

-- Over any run of the export screen something stays included, and each request that is sent
-- includes something and has a range of whole months: from is the first day of a month and to the
-- last day of that or a later month, each if it is bounded.
pub run-open_export-Inv :
    (now : Date) (xs : List Step)
    → let s = run now xs (open_export now) in (1 ≤ count_on s.includes) × All IsSendable s.sent
run-open_export-Inv now xs =
    run-Inv now xs (open_export now) (unfold open_export in (omega arith, tt))

abbrev pub is_refused : Exported → Bool
unfolding is_premium_required
is_refused shared_file = false
is_refused (failed_with e) = is_premium_required e

abbrev pub is_premium : Me → Bool
is_premium (unread e) = false
is_premium (premium b) = b

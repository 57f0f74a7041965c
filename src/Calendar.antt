-- ===== src/Calendar.antt =====
-- Calendar days as the app counts them: dayNumber of
-- mobile/src/features/price-intelligence/utils/priceTrend.ts, latestReceiptDate of
-- features/receipt-capture/utils/receiptDate.ts and addMonths of
-- features/price-intelligence/utils/muteUntil.ts. A date is its year, month and day in the local
-- calendar; the order of dates is that of their "YYYY-MM-DD" texts, for years of four digits.
pub mod Order
pub mod Shifts
mod Tests
use grocery_genie.Base.{
  Eq, nat_eq, string_eq, option_beq, option_beq_iff, changed, trim, is_empty, ℕ, zero, suc, ◌+◌,
  ◌-◌, ◌*◌, ◌/◌, ◌%◌, ◌≤◌, ◌<◌, String, ◌≡◌, refl, sym, ap, subst, ◌∙◌, ◌≢◌, ◌↔◌, ◌⊎◌, inl, inr,
  Bool, true, false, not, ◌&&◌, ◌||◌, Option, none, some, List, [], ◌∷◌, ◌++◌, map, append-nil,
  append_assoc, map-append, arith, str_eq, eq_iff, eq_refl, ltb, leb, ◌==◌, if◌then◌else◌, ltb→lt,
  leb→le, ==_iff, Bool-cases, if_cases, Option-cases, or_else, is_some, length, select, find, any,
  take, drop, All, length-append, All-append, All-map, All-select, All-select_of, length-take-le,
  select-append, Pairwise, Pairwise-map,
}
use grocery_genie.Reports.{Month, Date, Delta, ahead, back, month_of, add_months, last_day}

abbrev pub min : ℕ → ℕ → ℕ
min a b = if leb a b then a else b

-- The days of the years before this one.
unfoldable pub days_before_year : ℕ → ℕ
days_before_year y = 365 * y + (y + 3) / 4 + (y + 399) / 400 - (y + 99) / 100

-- The days of the first `k` months of a year.
unfoldable pub days_of_months : ℕ → ℕ → ℕ
days_of_months y zero = 0
days_of_months y (suc k) = days_of_months y k + last_day (record { year = y; month = suc k })

-- Date.UTC(y, m - 1, d) / 86_400_000, counted from year 0 instead of 1970: only differences of day
-- numbers are used.
unfoldable pub day_number : Date → ℕ
unfolding days_before_year days_of_months
day_number d = days_before_year d.year + days_of_months d.year (d.month - 1) + (d.day - 1)

-- a < b for two texts "YYYY-MM-DD"
abbrev pub earlier : Date → Date → Bool
earlier a b =
    ltb a.year b.year
    || (a.year == b.year && (ltb a.month b.month || (a.month == b.month && ltb a.day b.day)))

-- new Date(year, month, day + 1)
unfoldable pub next_day : Date → Date
next_day d =
    if ltb d.day (last_day (month_of d))
    then record d { day = d.day + 1 }
    else if ltb d.month 12
    then record { year = d.year; month = d.month + 1; day = 1 }
    else record { year = d.year + 1; month = 1; day = 1 }

-- latestReceiptDate
unfoldable pub latest_receipt_date : Date → Date
unfolding next_day
latest_receipt_date now = next_day now

-- A day past the end of a shorter month is its last day.
abbrev pub in_month : ℕ → Month → Date
in_month day m = record { year = m.year; month = m.month; day = min day (last_day m) }

-- addMonths of muteUntil.ts
unfoldable pub add_calendar_months : Date → ℕ → Date
unfolding add_months
add_calendar_months d months = in_month d.day (add_months (month_of d) (ahead months))

unfoldable pub plus_days : ℕ → Date → Date
unfolding next_day
plus_days zero d = d
plus_days (suc n) d = plus_days n (next_day d)

pub data MuteChoice : Type 0 where
  forever one_week one_month three_months : MuteChoice

-- The day on which a mute ends; its time of day is that of `now`.
unfoldable pub mute_until : MuteChoice → Date → Option Date
unfolding plus_days add_calendar_months
mute_until forever now = none
mute_until one_week now = some (plus_days 7 now)
mute_until one_month now = some (add_calendar_months now 1)
mute_until three_months now = some (add_calendar_months now 3)

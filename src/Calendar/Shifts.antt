-- ===== src/Calendar/Shifts.antt =====
-- Moving a date ahead stays in the calendar, and goes as far as it says.
use grocery_genie.Reports.Ranges.{IsMonth, add_months-shift}
use grocery_genie.Base.{
  nat_eq, string_eq, ℕ, zero, suc, ◌+◌, ◌≤◌, ◌<◌, ◌≡◌, ◌⊎◌, inl, inr, Option, none, some, arith,
  ltb, Bool-cases,
}
use grocery_genie.Reports.{Month, Date, ahead, month_of, index_of, add_months, last_day}
use grocery_genie.Calendar.{
  day_number, next_day, in_month, add_calendar_months, plus_days, MuteChoice, forever, one_week,
  one_month, three_months, mute_until,
}
use grocery_genie.Calendar.Order.{
  IsDate, leap_year_length, last_day-bounds, months_of_year, days_step, earlier_iff,
}

next_day_lem :
    (d : Date) → IsDate d → IsDate (next_day d) × (day_number (next_day d) ≡ day_number d + 1)
unfolding next_day day_number
next_day_lem d v = elim (Bool-cases (ltb d.day (last_day (month_of d)))) [
  | inl within ↦ rw within (ground (arith, v, within), ground (arith, v))
  | inr at_end ↦ elim (Bool-cases (ltb d.month 12)) [
    | inl within ↦
        rw (at_end, within)
          (
            ground
                (arith, v, within, last_day-bounds (record { year = d.year; month = d.month + 1 })),
            ground (arith, v, at_end, days_step d.year (d.month + 1), days_step d.year d.month v.0),
          )
    | inr december ↦
        rw (at_end, december)
          (
            ground (arith, v, last_day-bounds (record { year = d.year + 1; month = 1 })),
            ground (arith, v, at_end, december, months_of_year d.year, leap_year_length d.year),
          )
  ]
]

plus_days-day_number :
    (n : ℕ) (d : Date)
    → IsDate d
    → IsDate (plus_days n d) × (day_number (plus_days n d) ≡ day_number d + n)
unfolding plus_days
plus_days-day_number zero d v = (v, omega arith)
plus_days-day_number (suc n) d v =
    let next = next_day_lem d v in
    let rest = plus_days-day_number n (next_day d) next.0 in (rest.0, omega (arith, next.1, rest.1))

in_month-IsDate : (day : ℕ) (m : Month) → IsMonth m → 1 ≤ day → IsDate (in_month day m)
in_month-IsDate day m v h = ground (arith, v, h, last_day-bounds m)

-- The date is the same day of the month that is `months` ahead, or its last day if it is shorter.
abbrev pub Lands : ℕ → Date → Date → Type 0
Lands months now d =
    IsDate d
    × (index_of (month_of d) ≡ index_of (month_of now) + months)
    × ((d.day ≡ now.day) ⊎ ((d.day < now.day) × (d.day ≡ last_day (month_of d))))

add_calendar_months-Lands :
    (now : Date) (months : ℕ) → IsDate now → Lands months now (add_calendar_months now months)
unfolding add_calendar_months
add_calendar_months-Lands now months v =
    let moved = add_months-shift (month_of now) (ahead months) 0 (v.0, v.1) in
    (
      in_month-IsDate now.day (add_months (month_of now) (ahead months)) moved.0 v.2,
      moved.1,
      ground arith,
    )

later_month :
    (a b : Date)
    → IsDate a
    → IsDate b
    → index_of (month_of a) < index_of (month_of b)
    → day_number a < day_number b
later_month a b v w lt = (earlier_iff a b v w).0 (ground (arith, v, w, lt))

-- When a mute of this choice made today ends.
abbrev pub Ends : MuteChoice → Date → Option Date → Type 0
Ends forever now none = Unit
Ends forever now (some d) = ⊥
Ends one_week now none = ⊥
Ends one_week now (some d) = IsDate d × (day_number d ≡ day_number now + 7)
Ends one_month now none = ⊥
Ends one_month now (some d) = Lands 1 now d × (day_number now < day_number d)
Ends three_months now none = ⊥
Ends three_months now (some d) = Lands 3 now d × (day_number now < day_number d)

Lands-later :
    (k : ℕ) (now d : Date)
    → IsDate now
    → 0 < k
    → Lands k now d
    → Lands k now d × (day_number now < day_number d)
Lands-later k now d v pos l = (l, later_month now d v l.0 (omega (arith, l.1, pos)))

-- A mute made on a date of the calendar ends never, or on a date of the calendar after today: seven
-- days on, or on the same day one or three months on, or the last day of that month if it is
-- shorter.
pub mute_until-Ends :
    (choice : MuteChoice) (now : Date) → IsDate now → Ends choice now (mute_until choice now)
unfolding mute_until
mute_until-Ends forever now v = tt
mute_until-Ends one_week now v = plus_days-day_number 7 now v
mute_until-Ends one_month now v =
    Lands-later 1 now _ v (omega arith) (add_calendar_months-Lands now 1 v)
mute_until-Ends three_months now v =
    Lands-later 3 now _ v (omega arith) (add_calendar_months-Lands now 3 v)

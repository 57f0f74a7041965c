-- ===== src/Calendar/Tests.antt =====
-- Dates and mutes on small examples.
use grocery_genie.Base.{nat_eq, string_eq, ◌<◌, ◌≡◌, refl, ◌↔◌, true, some, arith}
use grocery_genie.Reports.{Date, last_day, add_months}
use grocery_genie.Calendar.{day_number, earlier, add_calendar_months, one_month, mute_until}
use grocery_genie.Calendar.Order.{IsDate, earlier_iff}
use grocery_genie.Calendar.Shifts.{Ends, mute_until-Ends}

abbrev january_end : Date
january_end = record { year = 2028; month = 1; day = 31 }

abbrev leap_day : Date
leap_day = record { year = 2028; month = 2; day = 29 }

muted_to_leap_day : mute_until one_month january_end ≡ some leap_day
unfolding mute_until add_calendar_months add_months last_day
muted_to_leap_day = refl

january_end-IsDate : IsDate january_end
january_end-IsDate = unfold last_day in ground arith

earlier_iff_example :
    (earlier january_end leap_day ≡ true) ↔ (day_number january_end < day_number leap_day)
earlier_iff_example =
    earlier_iff january_end leap_day january_end-IsDate (unfold last_day in ground arith)

mute_until-Ends_example : Ends one_month january_end (mute_until one_month january_end)
mute_until-Ends_example = mute_until-Ends one_month january_end january_end-IsDate

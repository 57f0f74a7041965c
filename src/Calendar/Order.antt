-- ===== src/Calendar/Order.antt =====
-- Day numbers follow the order of dates.
use grocery_genie.Base.{
  nat_eq, string_eq, ℕ, zero, suc, ◌+◌, ◌-◌, ◌≤◌, ◌<◌, ◌≡◌, ap, subst, ◌↔◌, ◌⊎◌, inl, inr, true,
  false, arith, ltb, leb, if◌then◌else◌, ltb→lt, leb→le, Bool-cases,
}
use grocery_genie.Reports.{Month, Date, month_of, is_leap, last_day}
use grocery_genie.Calendar.{days_before_year, days_of_months, day_number, earlier}

abbrev pub IsDate : Date → Type 0
IsDate d = (1 ≤ d.month) × (d.month ≤ 12) × (1 ≤ d.day) × (d.day ≤ last_day (month_of d))

pub leap_year_length :
    (y : ℕ) → days_before_year (y + 1) ≡ days_before_year y + (if is_leap y then 366 else 365)
unfolding days_before_year
leap_year_length y = ground arith

pub last_day-bounds : (m : Month) → (28 ≤ last_day m) × (last_day m ≤ 31)
unfolding last_day
last_day-bounds m = ground arith

pub months_of_year : (y : ℕ) → days_of_months y 12 ≡ (if is_leap y then 366 else 365)
unfolding days_of_months last_day
months_of_year y = ground arith

pub days_step :
    (y m : ℕ)
    → 1 ≤ m
    → days_of_months y m ≡ days_of_months y (m - 1) + last_day (record { year = y; month = m })
unfolding days_of_months
days_step y zero h = absurd (omega (arith, h))
days_step y (suc k) h =
    ap (λ j. days_of_months y j + last_day (record { year = y; month = suc k })) (omega arith)

days_suc : (y n : ℕ) → days_of_months y n ≤ days_of_months y (suc n)
unfolding days_of_months
days_suc y n = omega arith

pub days_mono : (y m n : ℕ) → m ≤ n → days_of_months y m ≤ days_of_months y n
days_mono y m zero h =
    let e : zero ≡ m = omega (arith, h) in
    subst (λ k. days_of_months y k ≤ days_of_months y zero) e (omega arith)
days_mono y m (suc n) h = elim (Bool-cases (leb m n)) [
  | inl le ↦ omega (arith, days_mono y m n (leb→le m n le), days_suc y n)
  | inr gt ↦
      let e : suc n ≡ m = ground (arith, gt, h) in
      subst (λ k. days_of_months y k ≤ days_of_months y (suc n)) e (omega arith)
]

years_mono : (y z : ℕ) → y < z → days_before_year (y + 1) ≤ days_before_year z
unfolding days_before_year
years_mono y z h = omega (arith, h)

day_number-in-month :
    (d : Date)
    → IsDate d
    → day_number d + 1 ≤ days_before_year d.year + days_of_months d.year d.month
unfolding day_number
day_number-in-month d v = omega (arith, days_step d.year d.month v.0, v.2, v.3)

day_number-in-year : (d : Date) → IsDate d → day_number d < days_before_year (d.year + 1)
day_number-in-year d v = ground (
  arith,
  day_number-in-month d v,
  days_mono d.year d.month 12 v.1,
  months_of_year d.year,
  leap_year_length d.year,
)

pub day_number-earlier :
    (a b : Date) → IsDate a → IsDate b → earlier a b ≡ true → day_number a < day_number b
day_number-earlier a b v w e = elim (Bool-cases (ltb a.year b.year)) [
  | inl sooner ↦
      unfold day_number in
      omega (arith, day_number-in-year a v, years_mono a.year b.year (ltb→lt a.year b.year sooner))
  | inr same_year ↦ elim (Bool-cases (ltb a.month b.month)) [
    | inl sooner ↦
        unfold day_number in
        ground (
          arith,
          e,
          same_year,
          day_number-in-month a v,
          days_mono a.year a.month (b.month - 1) (ground (arith, sooner)),
        )
    | inr same_month ↦ unfold day_number in ground (arith, e, same_year, same_month, v, w)
  ]
]

pub not_earlier :
    (a b : Date)
    → earlier a b ≡ false
    → (earlier b a ≡ true) ⊎ ((a.year ≡ b.year) × (a.month ≡ b.month) × (a.day ≡ b.day))
not_earlier a b h = ground arith

-- Two dates of the calendar are in the order of their texts "YYYY-MM-DD" exactly if their day
-- numbers are.
pub earlier_iff :
    (a b : Date) → IsDate a → IsDate b → (earlier a b ≡ true) ↔ (day_number a < day_number b)
earlier_iff a b v w = (
  day_number-earlier a b v w,
  λ lt. elim (Bool-cases (earlier a b)) [
    | inl sooner ↦ sooner
    | inr not_sooner ↦ elim (not_earlier a b not_sooner) [
      | inl later ↦ absurd (omega (arith, lt, day_number-earlier b a w v later))
      | inr (y, m, d) ↦ absurd (unfold day_number in ground (arith, lt, y, m, d))
    ]
  ],
)

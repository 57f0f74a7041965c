-- ===== src/Prices/Trend/Averages.antt =====
-- The thirty-day average of an item.
use native.Mathlib.Nat.{mul_comm, mul_assoc, one-le-mul, div-eq_of_lt}
use grocery_genie.Base.{
  nat_eq, string_eq, ℕ, ◌*◌, ◌≤◌, ◌<◌, ◌≡◌, refl, sym, ap, ◌∙◌, ◌⊎◌, inl, inr, Bool, true, ◌||◌,
  none, some, List, [], ◌∷◌, map, arith, ltb, ◌==◌, if◌then◌else◌, if_cases, length, select, All,
  All-select_of,
}
use grocery_genie.Base.Int.{pos, sub_ℕ, round_quotient}
use grocery_genie.Prices.{maximum}
use grocery_genie.Prices.Trend.{
  Observation, plotted, price_of, day_of, Mean, sum_of, mean, ThirtyDayAverage, is_recent,
  is_before, percent_change, latest_day, averages_at, average_of, thirty_day_average,
}

-- Some point is dated on the latest day.
maximum-among :
    (h : ℕ) (ps : List Observation)
    → (maximum h (map day_of ps) ≡ h)
      ⊎ (1 ≤ length (select (λ q. day_of q == maximum h (map day_of ps)) ps))
maximum-among h [] = inl refl
maximum-among h (p ∷ ps) =
    ground (arith, maximum-among (if ltb h (day_of p) then day_of p else h) ps)

select_wider :
    (p q : Observation → Bool) (ps : List Observation)
    → ((o : Observation) → p o ≡ true → q o ≡ true)
    → length (select p ps) ≤ length (select q ps)
select_wider p q [] h = omega arith
select_wider p q (o ∷ ps) h = ground (arith, h o, select_wider p q ps h)

recent_some :
    (p : Observation) (ps : List Observation)
    → 1 ≤ length (select (is_recent (latest_day p ps)) (p ∷ ps))
unfolding latest_day is_recent
recent_some p ps = elim (maximum-among (day_of p) ps) [
  | inl first ↦ ground (arith, first)
  | inr later ↦ ground (
    arith,
    later,
    select_wider (λ q. day_of q == maximum (day_of p) (map day_of ps))
        (is_recent (maximum (day_of p) (map day_of ps))) ps (λ o h. ground (arith, h)),
  )
]

-- The sum of prices that are all `c`.
sum_flat :
    (c : ℕ) (ps : List Observation)
    → All (λ p. p.unit_price ≡ c) ps
    → sum_of (map price_of ps) ≡ length (map price_of ps) * c
sum_flat c [] h = omega arith
sum_flat c (p ∷ ps) h = omega (arith, h.0, sum_flat c ps h.1)

round_zero : (b : ℕ) → 0 < b → round_quotient (pos 0) b ≡ pos 0
unfolding round_quotient
round_zero b h = ap pos (div-eq_of_lt (omega (arith, h)))

length-map : (ps : List Observation) → length (map price_of ps) ≡ length ps
length-map [] = refl
length-map (p ∷ ps) = omega (arith, length-map ps)

-- A mean whose prices are all `c`.
abbrev IsFlat : ℕ → Mean → Type 0
IsFlat c m = m.sum ≡ m.count * c

crossed : (m n c : ℕ) → m * c * n ≡ n * c * m
crossed m n c = mul_assoc m c n ∙ mul_comm m (c * n) ∙ ap (λ k. k * m) (mul_comm c n)

sub_ℕ-same : (a b : ℕ) → a ≡ b → sub_ℕ (a * 100) (b * 100) ≡ pos 0
sub_ℕ-same a b h = ground (arith, h)

-- Means of the same price have the same cross products.
same_sums :
    (now before : Mean) (c : ℕ)
    → 1 ≤ now.count
    → 0 < before.sum
    → IsFlat c now
    → IsFlat c before
    → round_quotient
        (sub_ℕ (now.sum * before.count * 100) (before.sum * now.count * 100))
        (before.sum * now.count)
      ≡ pos 0
same_sums now before c some_prices priced f g =
    let same : now.sum * before.count ≡ before.sum * now.count =
      ap (λ k. k * before.count) f
      ∙ crossed now.count before.count c
      ∙ ap (λ k. k * now.count) (sym g) in
    ap (λ z. round_quotient z (before.sum * now.count))
      (sub_ℕ-same (now.sum * before.count) (before.sum * now.count) same)
    ∙ round_zero (before.sum * now.count) (omega (arith, one-le-mul priced some_prices))

percent_change-flat :
    (c : ℕ) (now before : Mean)
    → 1 ≤ now.count
    → 0 < c
    → IsFlat c now
    → IsFlat c before
    → (percent_change now before ≡ none) ⊎ (percent_change now before ≡ some (pos 0))
unfolding percent_change
percent_change-flat c now before some_prices c_pos f g =
    if_cases (before.sum == 0 || before.count == 0) (λ o. (o ≡ none) ⊎ (o ≡ some (pos 0)))
      (λ nothing. inl refl)
      (λ priced. inr (ap some (same_sums now before c some_prices (ground (arith, priced)) f g)))

-- With a price in the timeline there is an average, of at least one price; and if the prices are
-- all the same it is that price, and the change against the days before is 0%, or none where they
-- have no price.
pub thirty_day_average-steady :
    (c : ℕ) (points : List Observation)
    → 1 ≤ length (select plotted points)
    → 0 < c
    → All (λ p. p.unit_price ≡ c) points
    → (a : ThirtyDayAverage) × (thirty_day_average points ≡ some a)
      × (1 ≤ a.average.count)
      × (a.average.sum ≡ a.average.count * c)
      × ((a.percent ≡ none) ⊎ (a.percent ≡ some (pos 0)))
unfolding thirty_day_average
thirty_day_average-steady c points h c_pos flat =
    average_of-steady (select plotted points) h
      (All-select_of (λ p. p.unit_price ≡ c) plotted points flat)
  where
    average_of-steady :
        (ps : List Observation)
        → 1 ≤ length ps
        → All (λ p. p.unit_price ≡ c) ps
        → (a : ThirtyDayAverage) × (average_of ps ≡ some a)
          × (1 ≤ a.average.count)
          × (a.average.sum ≡ a.average.count * c)
          × ((a.percent ≡ none) ⊎ (a.percent ≡ some (pos 0)))
    average_of-steady [] h flat = absurd (omega (arith, h))
    average_of-steady (p ∷ ps) h flat =
        let latest = latest_day p ps in
        let recent = select (is_recent latest) (p ∷ ps) in
        let before = select (is_before latest) (p ∷ ps) in
        let some_recent : 1 ≤ length (map price_of recent) =
          omega (arith, recent_some p ps, length-map recent) in
        let now_flat =
          sum_flat c recent
            (All-select_of (λ p. p.unit_price ≡ c) (is_recent latest) (p ∷ ps) flat) in
        let before_flat =
          sum_flat c before
            (All-select_of (λ p. p.unit_price ≡ c) (is_before latest) (p ∷ ps) flat) in
        (
          averages_at latest (p ∷ ps),
          refl,
          some_recent,
          now_flat,
          percent_change-flat c (mean (map price_of recent)) (mean (map price_of before))
              some_recent c_pos now_flat before_flat,
        )

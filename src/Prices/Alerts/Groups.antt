-- ===== src/Prices/Alerts/Groups.antt =====
-- The groups of the price alerts hold each alert once, newest first.
use grocery_genie.Base.{
  nat_eq, string_eq, ℕ, ◌+◌, ◌≤◌, ◌≡◌, refl, ◌∙◌, Bool, true, false, List, [], ◌∷◌, arith, ltb,
  ltb→lt, if_cases, length, select, All, All-map, All-select,
}
use grocery_genie.Base.Sorting.{
  Order, sort_by, Ascending, select-sort_by, sort_by-Ascending, Ascending-select,
}
use grocery_genie.Prices.Alerts.{
  PriceAlertRow, GroupTitle, this_week, earlier, PriceAlertGroup, newer, is_this_week, is_earlier,
  has_rows, group_price_alerts,
}

by_time : Order PriceAlertRow
by_time = record {
  Valid = λ r. 0 ≤ r.created_at;
  le = newer;
  total = λ a b h. ground (arith, h);
  trans = λ a b c va vb vc first second. ground (arith, first, second);
}

All-valid : (rows : List PriceAlertRow) → All (λ r. 0 ≤ r.created_at) rows
All-valid [] = tt
All-valid (r ∷ rows) = (omega arith, All-valid rows)

-- How many rows of the groups pass the test.
abbrev pub in_groups : (PriceAlertRow → Bool) → List PriceAlertGroup → ℕ
in_groups t [] = 0
in_groups t (g ∷ gs) = length (select t g.rows) + in_groups t gs

abbrev pub is_this_week_group : GroupTitle → Bool
is_this_week_group this_week = true
is_this_week_group earlier = false

abbrev IsWeek : ℕ → PriceAlertGroup → Type 0
IsWeek now g =
    Ascending newer g.rows × All (λ r. is_this_week now r ≡ is_this_week_group g.title) g.rows

-- Not empty, newest first, and only rows of its week.
abbrev pub IsGroup : ℕ → PriceAlertGroup → Type 0
IsGroup now g =
    Ascending newer g.rows
    × (1 ≤ length g.rows)
    × All (λ r. is_this_week now r ≡ is_this_week_group g.title) g.rows

split_count :
    (t : PriceAlertRow → Bool) (now : ℕ) (rows : List PriceAlertRow)
    → length (select t (select (is_this_week now) rows))
        + length (select t (select (is_earlier now) rows))
      ≡ length (select t rows)
split_count t now [] = refl
split_count t now (r ∷ rows) = ground (arith, split_count t now rows)

in_groups-has_rows :
    (t : PriceAlertRow → Bool) (gs : List PriceAlertGroup)
    → in_groups t (select has_rows gs) ≡ in_groups t gs
in_groups-has_rows t [] = refl
in_groups-has_rows t (g ∷ gs) =
    if_cases (has_rows g) (λ hs. in_groups t hs ≡ in_groups t (g ∷ gs))
      (λ some_rows. omega (arith, in_groups-has_rows t gs))
      (λ no_rows. omega (arith, in_groups-has_rows t gs, none_of g.rows no_rows))
  where
    none_of : (rows : List PriceAlertRow) → ltb 0 (length rows) ≡ false → length (select t rows) ≡ 0
    none_of [] h = refl
    none_of (r ∷ rows) h = absurd (ground (arith, h))

kept-IsGroup :
    (now : ℕ) (gs : List PriceAlertGroup)
    → All (IsWeek now) gs
    → All (IsGroup now) (select has_rows gs)
kept-IsGroup now [] h = tt
kept-IsGroup now (g ∷ gs) h =
    if_cases (has_rows g) (All (IsGroup now))
      (λ some_rows. ((h.0.0, ltb→lt _ _ some_rows, h.0.1), kept-IsGroup now gs h.1))
      (λ no_rows. kept-IsGroup now gs h.1)

abbrev group : GroupTitle → List PriceAlertRow → PriceAlertGroup
group title rows = record { title = title; rows = rows }

-- The groups of the list hold each alert in one of them and nothing else: this week the alerts of
-- the last seven days, earlier the others. No group is empty, and each has its newest alert first.
pub group_price_alerts-IsGroup :
    (t : PriceAlertRow → Bool) (rows : List PriceAlertRow) (now : ℕ)
    → let groups = group_price_alerts rows now in
      All (IsGroup now) groups × (in_groups t groups ≡ length (select t rows))
unfolding group_price_alerts by_time
group_price_alerts-IsGroup t rows now =
    let sorted = sort_by newer rows in
    let week = select (is_this_week now) sorted in
    let before = select (is_earlier now) sorted in
    let newest = sort_by-Ascending by_time rows (All-valid rows) in
    (
      kept-IsGroup now (group this_week week ∷ group earlier before ∷ []) (
        (
          Ascending-select newer (is_this_week now) sorted newest,
          All-select (is_this_week now) sorted,
        ),
        (
          (
            Ascending-select newer (is_earlier now) sorted newest,
            All-map (λ r. is_earlier now r ≡ true) (λ r. is_this_week now r ≡ false)
                (λ r h. ground (arith, h)) before (All-select (is_earlier now) sorted),
          ),
          tt,
        ),
      ),
      in_groups-has_rows t (group this_week week ∷ group earlier before ∷ [])
          ∙ omega (arith, split_count t now sorted, select-sort_by newer t rows),
    )

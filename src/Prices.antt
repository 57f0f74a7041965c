-- ===== src/Prices.antt =====
-- Splitting an item into several and comparing stores: canSaveSplit and MAX_SPLITS of
-- mobile/src/features/price-intelligence/utils/split.ts, and
-- mobile/src/features/price-intelligence/utils/storeComparison.ts. Prices are natural numbers of
-- cents, so a difference needs no rounding. The order of store names is a parameter.
pub mod Alerts
pub mod Chart
pub mod Splits
pub mod Trend
pub mod Stores
mod Tests
use grocery_genie.Base.{
  Eq, nat_eq, string_eq, option_beq, option_beq_iff, changed, trim, is_empty, ℕ, zero, suc, ◌+◌,
  ◌-◌, ◌*◌, ◌/◌, ◌%◌, ◌≤◌, ◌<◌, String, ◌≡◌, refl, sym, ap, subst, ◌∙◌, ◌≢◌, ◌↔◌, ◌⊎◌, inl, inr,
  Bool, true, false, not, ◌&&◌, ◌||◌, Option, none, some, List, [], ◌∷◌, ◌++◌, map, append-nil,
  append_assoc, map-append, arith, str_eq, eq_iff, eq_refl, ltb, leb, ◌==◌, if◌then◌else◌, ltb→lt,
  leb→le, ==_iff, Bool-cases, if_cases, Option-cases, or_else, is_some, length, select, find, any,
  take, drop, All, length-append, All-append, All-map, All-select, All-select_of, length-take-le,
  select-append,
}

pub record PricePoint : Type 0 where
  pub line_item_id : String
  pub in_timeline : Bool
  pub unit_price : ℕ

-- The like-for-like prices.
unfoldable pub timeline_prices : List PricePoint → List ℕ
timeline_prices [] = []
timeline_prices (p ∷ ps) =
    if p.in_timeline then p.unit_price ∷ timeline_prices ps else timeline_prices ps

abbrev pub minimum : ℕ → List ℕ → ℕ
minimum low [] = low
minimum low (n ∷ ns) = minimum (if ltb n low then n else low) ns

abbrev pub maximum : ℕ → List ℕ → ℕ
maximum high [] = high
maximum high (n ∷ ns) = maximum (if ltb high n then n else high) ns

-- high >= low * 1.5
abbrev pub varies : List ℕ → Bool
varies [] = false
varies (n ∷ []) = false
varies (n ∷ m ∷ ns) =
    ltb 0 (minimum n (m ∷ ns)) && leb (minimum n (m ∷ ns) * 3) (maximum n (m ∷ ns) * 2)

unfoldable pub unit_price_varies : List PricePoint → Bool
unfolding timeline_prices
unit_price_varies points = varies (timeline_prices points)

pub record SplitDraft : Type 0 where
  pub name : String
  pub lines : List String

abbrev pub is_nil : List String → Bool
is_nil [] = true
is_nil (i ∷ is) = false

-- drafts.flatMap((d) => d.lines)
unfoldable pub moved : List SplitDraft → List String
moved [] = []
moved (d ∷ ds) = d.lines ++ moved ds

abbrev pub incomplete : SplitDraft → Bool
incomplete d = is_empty (trim d.name) || is_nil d.lines

abbrev pub mem : String → List String → Bool
mem i is = any (λ j. str_eq j i) is

unfoldable pub can_save_split : List String → List SplitDraft → Bool
unfolding moved
can_save_split all_lines [] = false
can_save_split all_lines (d ∷ ds) =
    if any incomplete (d ∷ ds) then false else any (λ i. not (mem i (moved (d ∷ ds)))) all_lines

pub record StorePrice : Type 0 where
  pub store_name : String
  pub latest_price : ℕ
  pub avg_price : ℕ

pub record SwitchSavings : Type 0 where
  pub amount : ℕ
  pub cheapest : String
  pub priciest : String

-- `name_leb a b`: a.localeCompare(b) is not positive.
module _ (name_leb : String → String → Bool) where
  abbrev pub not_after : StorePrice → StorePrice → Bool
  not_after a b =
      if ltb a.latest_price b.latest_price
      then true
      else if ltb b.latest_price a.latest_price
      then false
      else if ltb a.avg_price b.avg_price
      then true
      else if ltb b.avg_price a.avg_price
      then false
      else name_leb a.store_name b.store_name

  unfoldable pub insert_store : StorePrice → List StorePrice → List StorePrice
  insert_store x [] = x ∷ []
  insert_store x (y ∷ ys) =
      let rest = insert_store x ys in if not_after x y then x ∷ y ∷ ys else y ∷ rest

  -- The sort is stable: equal stores keep their order.
  unfoldable pub order_stores_by_latest : List StorePrice → List StorePrice
  unfolding insert_store
  order_stores_by_latest [] = []
  order_stores_by_latest (x ∷ xs) = insert_store x (order_stores_by_latest xs)

abbrev pub last_of : StorePrice → List StorePrice → StorePrice
last_of x [] = x
last_of x (y ∷ ys) = last_of y ys

unfoldable pub switch_savings : List StorePrice → Option SwitchSavings
switch_savings [] = none
switch_savings (x ∷ []) = none
switch_savings (x ∷ y ∷ ys) =
    let top = last_of y ys in
    if leb top.latest_price x.latest_price
    then none
    else some (record {
      amount = top.latest_price - x.latest_price;
      cheapest = x.store_name;
      priciest = top.store_name;
    })

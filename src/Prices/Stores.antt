-- ===== src/Prices/Stores.antt =====
-- The order of the stores, and what switching between them saves.
use grocery_genie.Base.{
  nat_eq, string_eq, ℕ, ◌+◌, ◌≤◌, ◌<◌, String, ◌≡◌, refl, ◌∙◌, Bool, Option, none, some, List, [],
  ◌∷◌, arith, leb, if_cases, length, select, All, All-map,
}
use grocery_genie.Prices.{
  StorePrice, SwitchSavings, not_after, insert_store, order_stores_by_latest, last_of,
  switch_savings,
}

-- Latest prices rise along the list, from `low` on.
abbrev pub Rising : ℕ → List StorePrice → Type 0
Rising low [] = Unit
Rising low (x ∷ xs) = (low ≤ x.latest_price) × Rising x.latest_price xs

module _ (name_leb : String → String → Bool) where
  insert_store-Rising :
      (low : ℕ) (x : StorePrice) (ys : List StorePrice)
      → low ≤ x.latest_price
      → Rising low ys
      → Rising low (insert_store name_leb x ys)
  unfolding insert_store
  insert_store-Rising low x [] le r = (le, tt)
  insert_store-Rising low x (y ∷ ys) le r =
      if_cases (not_after name_leb x y) (Rising low) (λ first. (le, (ground arith, r.1)))
        (λ after. (r.0, insert_store-Rising y.latest_price x ys (ground arith) r.1))

  order_stores-Rising : (xs : List StorePrice) → Rising 0 (order_stores_by_latest name_leb xs)
  unfolding order_stores_by_latest
  order_stores-Rising [] = tt
  order_stores-Rising (x ∷ xs) =
      insert_store-Rising 0 x (order_stores_by_latest name_leb xs) (omega arith)
        (order_stores-Rising xs)

  select-insert_store :
      (p : StorePrice → Bool) (x : StorePrice) (ys : List StorePrice)
      → length (select p (insert_store name_leb x ys)) ≡ length (select p (x ∷ ys))
  unfolding insert_store
  select-insert_store p x [] = refl
  select-insert_store p x (y ∷ ys) =
      if_cases (not_after name_leb x y)
        (λ zs. length (select p zs) ≡ length (select p (x ∷ y ∷ ys))) (λ first. refl)
        (λ after. ground (arith, select-insert_store p x ys))

  select-order_stores :
      (p : StorePrice → Bool) (xs : List StorePrice)
      → length (select p (order_stores_by_latest name_leb xs)) ≡ length (select p xs)
  unfolding order_stores_by_latest
  select-order_stores p [] = refl
  select-order_stores p (x ∷ xs) =
      select-insert_store p x (order_stores_by_latest name_leb xs)
      ∙ ground (arith, select-order_stores p xs)

-- All prices of a rising list lie between its first and its last.
Rising-low : (low : ℕ) (xs : List StorePrice) → Rising low xs → All (λ s. low ≤ s.latest_price) xs
Rising-low low [] r = tt
Rising-low low (x ∷ xs) r = (
  r.0,
  All-map (λ s. x.latest_price ≤ s.latest_price) (λ s. low ≤ s.latest_price)
      (λ s le. omega (arith, le, r.0)) xs (Rising-low x.latest_price xs r.1),
)

Rising-top :
    (low : ℕ) (x : StorePrice) (xs : List StorePrice)
    → Rising low (x ∷ xs)
    → (low ≤ (last_of x xs).latest_price)
      × All (λ s. s.latest_price ≤ (last_of x xs).latest_price) (x ∷ xs)
Rising-top low x [] r = (r.0, (omega arith, tt))
Rising-top low x (y ∷ ys) r =
    let rest = Rising-top x.latest_price y ys r.1 in (omega (arith, r.0, rest.0), (rest.0, rest.1))

-- No store of the list is further than `gap` above the price `low`.
abbrev pub Within : ℕ → List StorePrice → Type 0
Within gap xs = All (λ s. All (λ t. t.latest_price ≤ s.latest_price + gap) xs) xs

abbrev pub amount_of : Option SwitchSavings → ℕ
amount_of none = 0
amount_of (some s) = s.amount

within_gap :
    (low top gap : ℕ) (all xs : List StorePrice)
    → top ≤ low + gap
    → All (λ t. t.latest_price ≤ top) all
    → All (λ s. low ≤ s.latest_price) xs
    → All (λ s. All (λ t. t.latest_price ≤ s.latest_price + gap) all) xs
within_gap low top gap all xs le tops lows =
    All-map (λ s. low ≤ s.latest_price) (λ s. All (λ t. t.latest_price ≤ s.latest_price + gap) all)
      (λ s at_least.
        All-map (λ t. t.latest_price ≤ top) (λ t. t.latest_price ≤ s.latest_price + gap)
          (λ t at_most. omega (arith, at_least, at_most, le)) all tops)
      xs lows

switch_savings-Within :
    (xs : List StorePrice) → Rising 0 xs → Within (amount_of (switch_savings xs)) xs
unfolding switch_savings
switch_savings-Within [] r = tt
switch_savings-Within (x ∷ []) r = ((omega arith, tt), tt)
switch_savings-Within (x ∷ y ∷ ys) r =
    let tops = Rising-top 0 x (y ∷ ys) r in
    let lows = Rising-low x.latest_price (x ∷ y ∷ ys) (omega arith, r.1) in
    within_gap x.latest_price (last_of y ys).latest_price _ (x ∷ y ∷ ys) (x ∷ y ∷ ys) (ground arith)
      tops.1 lows

-- The savings name the first and the last store, and are the gap between them.
abbrev pub Attained : Option SwitchSavings → List StorePrice → Type 0
Attained none xs = Unit
Attained (some w) [] = ⊥
Attained (some w) (x ∷ xs) =
    (w.cheapest ≡ x.store_name)
    × (w.priciest ≡ (last_of x xs).store_name)
    × (x.latest_price + w.amount ≡ (last_of x xs).latest_price)
    × (0 < w.amount)

switch_savings-Attained : (xs : List StorePrice) → Attained (switch_savings xs) xs
unfolding switch_savings
switch_savings-Attained [] = tt
switch_savings-Attained (x ∷ []) = tt
switch_savings-Attained (x ∷ y ∷ ys) =
    if_cases (leb (last_of y ys).latest_price x.latest_price) (λ o. Attained o (x ∷ y ∷ ys))
      (λ none_less. tt) (λ gap. (refl, refl, ground arith, ground arith))

-- Stores are ordered by their latest price and none is lost or added. The amount that switching
-- saves, 0 where none is shown, is no less than the gap between any two of them, and where it is
-- shown it is above 0 and the gap between the first store and the last, which it names.
order_stores_by_latest-Rising :
    (name_leb : String → String → Bool) (p : StorePrice → Bool) (stores : List StorePrice)
    → let ordered = order_stores_by_latest name_leb stores in
      Rising 0 ordered
      × (length (select p ordered) ≡ length (select p stores))
      × Within (amount_of (switch_savings ordered)) ordered
      × Attained (switch_savings ordered) ordered
order_stores_by_latest-Rising name_leb p stores =
    let rising = order_stores-Rising name_leb stores in
    (
      rising,
      select-order_stores name_leb p stores,
      switch_savings-Within (order_stores_by_latest name_leb stores) rising,
      switch_savings-Attained (order_stores_by_latest name_leb stores),
    )

-- ===== src/Review/Form/Totals.antt =====
-- The amounts that the review screen shows while prices are edited: priceDelta and withPriceDelta
-- of mobile/app/review.tsx.
use grocery_genie.Base.{
  nat_eq, string_eq, ◌≡◌, refl, ap, ◌∙◌, Option, none, some, List, [], ◌∷◌, map, arith, All,
  Pairwise,
}
use grocery_genie.Base.Int.{
  ℤ, scale, pos, negsuc, pos_part, neg_part, ◌+ℤ◌, ◌-ℤ◌, int_eq, round_quotient, int_laws,
}
use grocery_genie.Review.{LineItemExtraction, ReceiptExtraction, EditableLineItem, original_of}
use grocery_genie.Review.Form.{editable, initial_items, Edit, edit_all}
use grocery_genie.Review.Form.Edited.{
  Follows, edit_all-Follows, map-editable-Follows, original_of-own, HasOwnIds,
}

-- baselinePrices.get(item.id) ?? item.totalPrice
abbrev pub price_before : Option (LineItemExtraction ℤ) → EditableLineItem ℤ → ℤ
price_before none item = item.total_price
price_before (some o) item = o.total_price

-- The sum, from the last item on: integers add up to the same in any order.
unfoldable pub price_delta : List (LineItemExtraction ℤ) → List (EditableLineItem ℤ) → ℤ
unfolding original_of
price_delta originals [] = pos 0
price_delta originals (item ∷ items) =
    price_delta originals items
    +ℤ item.total_price
    -ℤ price_before (original_of item.id originals) item

unfoldable pub with_price_delta : ℤ → Option ℤ → Option ℤ
unfolding round_quotient
with_price_delta delta none = none
with_price_delta delta (some amount) = some (scale 10 (round_quotient (amount +ℤ delta) 10))

unfoldable pub displayed : ReceiptExtraction ℤ → List (EditableLineItem ℤ) → Option ℤ → Option ℤ
unfolding price_delta with_price_delta
displayed x items amount = with_price_delta (price_delta x.items items) amount

abbrev pub scanned_sum : List (LineItemExtraction ℤ) → ℤ
scanned_sum [] = pos 0
scanned_sum (o ∷ os) = scanned_sum os +ℤ o.total_price

abbrev pub shown_sum : List (EditableLineItem ℤ) → ℤ
shown_sum [] = pos 0
shown_sum (i ∷ is) = shown_sum is +ℤ i.total_price

round_cents : (c : ℤ) → round_quotient (scale 10 c) 10 ≡ c
unfolding round_quotient
round_cents (pos n) = ground arith
round_cents (negsuc n) = ground arith

one_more : (d t b s f : ℤ) → d +ℤ s ≡ f → d +ℤ t -ℤ b +ℤ (s +ℤ b) ≡ f +ℤ t
one_more d t b s f h = omega (int_laws, ap pos_part h, ap neg_part h)

whole_cents :
    (amount delta c before now : ℤ)
    → delta +ℤ before ≡ now
    → amount +ℤ now ≡ c +ℤ before
    → amount +ℤ delta ≡ c
whole_cents amount delta c before now h k =
    omega (int_laws, ap pos_part h, ap neg_part h, ap pos_part k, ap neg_part k)

price_delta-sum :
    (originals os : List (LineItemExtraction ℤ)) (items : List (EditableLineItem ℤ))
    → All (λ o. original_of o.id originals ≡ some o) os
    → Pairwise Follows os items
    → price_delta originals items +ℤ scanned_sum os ≡ shown_sum items
unfolding price_delta
price_delta-sum originals [] [] found h = unfold ◌+ℤ◌ in refl
price_delta-sum originals [] (i ∷ is) found h = absurd h
price_delta-sum originals (o ∷ os) [] found h = absurd h
price_delta-sum originals (o ∷ os) (i ∷ is) found h =
    let earlier = price_delta-sum originals os is found.1 h.1 in
    rw (ap (λ k. original_of k originals) h.0.0 ∙ found.0)
      (one_more _ i.total_price o.total_price _ _ earlier)

-- While the user edits, the displayed total stays balanced: if the items the user sees and what the
-- receipt adds to them (tax, say) make a whole number of cents, that is the displayed total. The
-- items of the scan have ids of their own.
pub displayed-Balanced :
    (x : ReceiptExtraction ℤ) (es : List Edit) (amount cents : ℤ)
    → HasOwnIds x.items
    → amount +ℤ shown_sum (edit_all es (initial_items (some x)))
      ≡ scale 10 cents +ℤ scanned_sum x.items
    → displayed x (edit_all es (initial_items (some x))) (some amount) ≡ some (scale 10 cents)
unfolding displayed with_price_delta
displayed-Balanced x es amount cents own balance =
    let items = edit_all es (initial_items (some x)) in
    let sums : price_delta x.items items +ℤ scanned_sum x.items ≡ shown_sum items =
      unfold initial_items in
      price_delta-sum x.items x.items (edit_all es (map editable x.items))
        (original_of-own x.items own)
        (edit_all-Follows es x.items (map editable x.items) (map-editable-Follows x.items)) in
    let whole : amount +ℤ price_delta x.items items ≡ scale 10 cents =
      whole_cents amount _ (scale 10 cents) _ _ sums balance in
    rw (whole, round_cents cents) refl

-- ===== src/Review/Form/Edited.antt =====
-- What the user sees after any edits is what a confirmed review stores.
use grocery_genie.Base.{
  nat_eq, string_eq, String, ◌≡◌, refl, ◌≢◌, ◌⊎◌, inl, inr, true, false, not, ◌&&◌, ◌||◌, none,
  some, List, [], ◌∷◌, map, arith, str_eq, eq_iff, eq_refl, if_cases, All, All-map, Pairwise,
  Pairwise-map,
}
use grocery_genie.Base.Int.{ℤ, beq_ℤ, int_eq}
use grocery_genie.Review.{
  LineItemExtraction, ReceiptExtraction, EditableLineItem, original_of, correct,
}
use grocery_genie.Review.Corrections.{after_correction, KeepsCategory, correct-reviewed}
use grocery_genie.Review.Form.{
  all_items, editable, initial_items, rename, reprice, requantify, recategorize, update_item_name,
  update_item_price, update_item_quantity, update_item_category, Edit, name_typed, price_typed,
  quantity_typed, category_picked, edit, edit_all,
}

abbrev pub Shows : LineItemExtraction ℤ → EditableLineItem ℤ → Type 0
Shows stored item =
    (stored.name ≡ item.name)
    × (stored.category_id ≡ item.category_id)
    × (stored.quantity ≡ item.quantity)
    × (stored.total_price ≡ item.total_price)

-- An item of the form comes from this item of the scan, and is marked if it differs from it.
abbrev pub Follows : LineItemExtraction ℤ → EditableLineItem ℤ → Type 0
Follows o item =
    (item.id ≡ o.id)
    × KeepsCategory item.category_id o.category_id
    × ((item.is_edited ≡ true) ⊎ ((item.is_edited ≡ false) × Shows o item))

pub edit-Follows :
    (e : Edit) (os : List (LineItemExtraction ℤ)) (items : List (EditableLineItem ℤ))
    → Pairwise Follows os items
    → Pairwise Follows os (edit e items)
unfolding edit update_item_name update_item_price update_item_quantity update_item_category
    requantify
edit-Follows (name_typed i n) os items h =
    Pairwise-map Follows (rename i n)
      (λ o item f.
        if_cases (str_eq item.id i && not (str_eq item.name n)) (Follows o)
          (λ yes. (f.0, f.1, inl refl)) (λ no. f))
      os items h
edit-Follows (price_typed i p) os items h =
    Pairwise-map Follows (reprice i p)
      (λ o item f.
        if_cases (str_eq item.id i && not (beq_ℤ item.total_price p)) (Follows o)
          (λ yes. (f.0, f.1, inl refl)) (λ no. f))
      os items h
edit-Follows (quantity_typed i q) os items h =
    Pairwise-map Follows (requantify i q)
      (λ o item f.
        if_cases (str_eq item.id i && not (beq_ℤ item.quantity q)) (Follows o)
          (λ yes. (f.0, f.1, inl refl)) (λ no. f))
      os items h
edit-Follows (category_picked i c) os items h =
    Pairwise-map Follows (recategorize i c)
      (λ o item f.
        if_cases (str_eq item.id i || str_eq i all_items) (Follows o)
          (λ yes. (f.0, inr (ground arith), inl refl)) (λ no. f))
      os items h

pub edit_all-Follows :
    (es : List Edit) (os : List (LineItemExtraction ℤ)) (items : List (EditableLineItem ℤ))
    → Pairwise Follows os items
    → Pairwise Follows os (edit_all es items)
unfolding edit_all
edit_all-Follows [] os items h = h
edit_all-Follows (e ∷ es) os items h =
    edit_all-Follows es os (edit e items) (edit-Follows e os items h)

pub map-editable-Follows :
    (os : List (LineItemExtraction ℤ)) → Pairwise Follows os (map editable os)
unfolding editable
map-editable-Follows [] = tt
map-editable-Follows (o ∷ os) =
    ((refl, inl refl, inr (refl, (refl, refl, refl, refl))), map-editable-Follows os)

-- No two items of the scan have the same id.
abbrev pub HasOwnIds : List (LineItemExtraction ℤ) → Type 0
HasOwnIds [] = Unit
HasOwnIds (o ∷ os) = All (λ p. p.id ≢ o.id) os × HasOwnIds os

original_of-absent :
    (i : String) (os : List (LineItemExtraction ℤ))
    → All (λ p. p.id ≢ i) os
    → original_of i os ≡ none
unfolding original_of
original_of-absent i [] h = refl
original_of-absent i (o ∷ os) h = ground (arith, eq_iff o.id i, original_of-absent i os h.1, h.0)

original_of-later :
    (o p : LineItemExtraction ℤ) (os : List (LineItemExtraction ℤ))
    → original_of p.id os ≡ some p
    → original_of p.id (o ∷ os) ≡ some p
unfolding original_of
original_of-later o p os h = rw h refl

pub original_of-own :
    (os : List (LineItemExtraction ℤ)) → HasOwnIds os → All (λ o. original_of o.id os ≡ some o) os
original_of-own [] h = tt
original_of-own (o ∷ os) h = (
  unfold original_of in rw (original_of-absent o.id os h.0, eq_refl o.id) refl,
  All-map (λ p. original_of p.id os ≡ some p) (λ p. original_of p.id (o ∷ os) ≡ some p)
      (λ p found. original_of-later o p os found) os (original_of-own os h.1),
)

after_correction-Shows :
    (originals : List (LineItemExtraction ℤ)) (o : LineItemExtraction ℤ) (item : EditableLineItem ℤ)
    → original_of o.id originals ≡ some o
    → Follows o item
    → Shows (after_correction (correct originals item) o) item
after_correction-Shows originals o item found (same, keeps, inl edited) =
    correct-reviewed originals item o edited (rw same found) keeps
after_correction-Shows originals o item found (same, keeps, inr (unedited, shows)) =
    unfold correct after_correction in rw (same, found, unedited) shows

Pairwise-Shows :
    (originals os : List (LineItemExtraction ℤ)) (items : List (EditableLineItem ℤ))
    → All (λ o. original_of o.id originals ≡ some o) os
    → Pairwise Follows os items
    → Pairwise (λ o item. Shows (after_correction (correct originals item) o) item) os items
Pairwise-Shows originals [] [] found h = tt
Pairwise-Shows originals [] (i ∷ is) found h = h
Pairwise-Shows originals (o ∷ os) [] found h = h
Pairwise-Shows originals (o ∷ os) (i ∷ is) found h =
    (after_correction-Shows originals o i found.0 h.0, Pairwise-Shows originals os is found.1 h.1)

-- After any edits of the form, the items of the form are those of the scan, in order, and the
-- stored item, corrected as the review says, has the name, category, quantity and price that the
-- user sees. The items of the scan have ids of their own.
pub edit_all-Shows :
    (x : ReceiptExtraction ℤ) (es : List Edit)
    → HasOwnIds x.items
    → Pairwise
        (λ o item. Shows (after_correction (correct x.items item) o) item)
        x.items
        (edit_all es (initial_items (some x)))
unfolding initial_items
edit_all-Shows x es own =
    Pairwise-Shows x.items x.items (edit_all es (map editable x.items))
      (original_of-own x.items own)
      (edit_all-Follows es x.items (map editable x.items) (map-editable-Follows x.items))

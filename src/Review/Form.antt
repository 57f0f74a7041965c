-- ===== src/Review/Form.antt =====
-- The form of the review screen, mobile/app/review.tsx: the items as the user edits them. Amounts
-- and quantities are integers of thousandths, so a cent is 10 and a confidence of 1 is 1000.
pub mod Edited
pub mod Totals
mod Tests
use grocery_genie.Base.{
  Eq, nat_eq, string_eq, option_beq, option_beq_iff, changed, trim, is_empty, ℕ, zero, suc, ◌+◌,
  ◌-◌, ◌*◌, ◌/◌, ◌%◌, ◌≤◌, ◌<◌, String, ◌≡◌, refl, sym, ap, subst, ◌∙◌, ◌≢◌, ◌↔◌, ◌⊎◌, inl, inr,
  Bool, true, false, not, ◌&&◌, ◌||◌, Option, none, some, List, [], ◌∷◌, ◌++◌, map, append-nil,
  append_assoc, map-append, arith, str_eq, eq_iff, eq_refl, ltb, leb, ◌==◌, if◌then◌else◌, ltb→lt,
  leb→le, ==_iff, Bool-cases, if_cases, Option-cases, or_else, is_some, length, select, find, any,
  take, drop, All, length-append, All-append, All-map, All-select, All-select_of, length-take-le,
  select-append,
}
use grocery_genie.Base.Int.{
  ℤ, scale, pos, negsuc, pos_part, neg_part, ◌+ℤ◌, ◌-ℤ◌, beq_ℤ, leb_ℤ, int_eq, round_quotient,
}
use grocery_genie.Review.{
  cons_some, same_store, LineItemExtraction, ReceiptExtraction, EditableLineItem,
  LineItemCorrection, ReceiptUpdateRequest, original_of, correction_of, says_something,
  correct_with, correct, corrections, non_empty, build_receipt_update, LineItemResponse,
  ReceiptResponse, item_extraction, extraction_from_receipt,
}

-- ALL_ITEMS
abbrev pub all_items : String
all_items = "__all_items__"

unfoldable pub editable : LineItemExtraction ℤ → EditableLineItem ℤ
editable item = record {
  id = item.id;
  name = item.name;
  quantity = item.quantity;
  unit_price = item.unit_price;
  total_price = item.total_price;
  category_id = item.category_id;
  category_confidence = item.category_confidence;
  extraction_confidence = item.extraction_confidence;
  is_edited = false;
}

abbrev pub items_of : Option (ReceiptExtraction ℤ) → List (LineItemExtraction ℤ)
items_of none = []
items_of (some x) = x.items

unfoldable pub initial_items : Option (ReceiptExtraction ℤ) → List (EditableLineItem ℤ)
unfolding editable
initial_items baseline = map editable (items_of baseline)

abbrev pub rename : String → String → EditableLineItem ℤ → EditableLineItem ℤ
rename item_id name item =
    if str_eq item.id item_id && not (str_eq item.name name)
    then record item { name = name; is_edited = true }
    else item

abbrev pub reprice : String → ℤ → EditableLineItem ℤ → EditableLineItem ℤ
reprice item_id price item =
    if str_eq item.id item_id && not (beq_ℤ item.total_price price)
    then record item { total_price = price; is_edited = true }
    else item

-- Math.round((item.totalPrice / quantity) * 100) / 100; `parseQuantity` gives quantities above 0.
unfoldable pub unit_price_for : ℤ → ℤ → ℤ
unfolding round_quotient
unit_price_for total quantity = scale 10 (round_quotient (scale 100 total) (pos_part quantity))

abbrev pub requantify : String → ℤ → EditableLineItem ℤ → EditableLineItem ℤ
unfolding unit_price_for
requantify item_id quantity item =
    if str_eq item.id item_id && not (beq_ℤ item.quantity quantity)
    then record item {
      quantity = quantity;
      unit_price = unit_price_for item.total_price quantity;
      is_edited = true;
    }
    else item

abbrev pub recategorize : String → String → EditableLineItem ℤ → EditableLineItem ℤ
recategorize item_id category_id item =
    if str_eq item.id item_id || str_eq item_id all_items
    then record item {
      category_id = some category_id;
      category_confidence = some (pos 1000);
      is_edited = true;
    }
    else item

unfoldable pub update_item_name :
    String → String → List (EditableLineItem ℤ) → List (EditableLineItem ℤ)
update_item_name item_id name = map (rename item_id name)

unfoldable pub update_item_price :
    String → ℤ → List (EditableLineItem ℤ) → List (EditableLineItem ℤ)
update_item_price item_id price = map (reprice item_id price)

unfoldable pub update_item_quantity :
    String → ℤ → List (EditableLineItem ℤ) → List (EditableLineItem ℤ)
update_item_quantity item_id quantity = map (requantify item_id quantity)

unfoldable pub update_item_category :
    String → String → List (EditableLineItem ℤ) → List (EditableLineItem ℤ)
update_item_category item_id category_id = map (recategorize item_id category_id)

-- What a row or the category picker calls.
pub data Edit : Type 0 where
  name_typed : String → String → Edit
  price_typed : String → ℤ → Edit
  quantity_typed : String → ℤ → Edit
  category_picked : String → String → Edit

unfoldable pub edit : Edit → List (EditableLineItem ℤ) → List (EditableLineItem ℤ)
unfolding update_item_name update_item_price update_item_quantity update_item_category
edit (name_typed i n) items = update_item_name i n items
edit (price_typed i p) items = update_item_price i p items
edit (quantity_typed i q) items = update_item_quantity i q items
edit (category_picked i c) items = update_item_category i c items

unfoldable pub edit_all : List Edit → List (EditableLineItem ℤ) → List (EditableLineItem ℤ)
unfolding edit
edit_all [] items = items
edit_all (e ∷ es) items = edit_all es (edit e items)

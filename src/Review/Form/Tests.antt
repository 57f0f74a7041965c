-- ===== src/Review/Form/Tests.antt =====
-- Edits of a small receipt, with numbers in thousandths.
use grocery_genie.Base.{
  nat_eq, string_eq, String, ◌≡◌, refl, false, none, some, List, [], ◌∷◌, arith, eq_iff, Pairwise,
}
use grocery_genie.Base.Int.{ℤ, pos, ◌+ℤ◌, scale, int_eq}
use grocery_genie.Review.{LineItemExtraction, ReceiptExtraction, correct}
use grocery_genie.Review.Corrections.{after_correction}
use grocery_genie.Review.Form.{
  all_items, editable, initial_items, requantify, update_item_name, update_item_price,
  update_item_quantity, update_item_category, Edit, name_typed, price_typed, quantity_typed,
  category_picked, edit, edit_all,
}
use grocery_genie.Review.Form.Edited.{Shows, HasOwnIds, edit_all-Shows}
use grocery_genie.Review.Form.Totals.{displayed, displayed-Balanced}
use grocery_genie.Review.Screen.{
  Opened, Step, edited, store_typed, save_pressed, mutation_succeeded, mutation_failed,
}

abbrev line : String → ℤ → LineItemExtraction ℤ
line i price = record {
  id = i;
  name = "MLK";
  quantity = pos 1000;
  unit_price = price;
  total_price = price;
  category_id = some "dairy";
  category_confidence = none;
  extraction_confidence = none;
  warnings = [];
}

abbrev receipt : ReceiptExtraction ℤ
receipt = record {
  store_name = some "Aldi";
  date = "2026-01-02";
  items = line "i1" (pos 1990) ∷ line "i2" (pos 3500) ∷ [];
  subtotal = none;
  tax = none;
  total = some (pos 5490);
  currency = "EUR";
  confidence = pos 900;
  store_name_confidence = none;
  date_confidence = none;
  total_confidence = none;
  warnings = [];
}

abbrev edits : List Edit
edits =
    name_typed "i1" "Milk"
    ∷ price_typed "i1" (pos 2990)
    ∷ quantity_typed "i2" (pos 2000)
    ∷ category_picked all_items "other"
    ∷ []

own_ids : HasOwnIds receipt.items
own_ids = ground (arith, eq_iff "i2" "i1")

edit_all-Shows_example :
    Pairwise
      (λ o item. Shows (after_correction (correct receipt.items item) o) item)
      receipt.items
      (edit_all edits (initial_items (some receipt)))
edit_all-Shows_example = edit_all-Shows receipt edits own_ids

displayed-Balanced_example :
    displayed receipt (edit_all edits (initial_items (some receipt))) (some (pos 5490))
    ≡ some (scale 10 (pos 649))
displayed-Balanced_example = displayed-Balanced receipt edits (pos 5490) (pos 649) own_ids (
    unfold edit_all edit update_item_name update_item_price update_item_quantity
      update_item_category requantify initial_items editable ◌+ℤ◌ in
    refl)

abbrev scanned : Opened
scanned = record {
  active_scan =
      some (record { receipt_id = "r1"; extraction = receipt; duplicate_warning = false });
  receipt_id = none;
  edit = none;
  fetched = none;
}

abbrev review : List Step
review =
    edited (price_typed "i1" (pos 2990))
    ∷ save_pressed
    ∷ mutation_failed "offline"
    ∷ store_typed "Lidl"
    ∷ save_pressed
    ∷ mutation_succeeded
    ∷ []

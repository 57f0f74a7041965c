-- ===== src/Review/Tests.antt =====
-- A review on a small example, with numbers as cents.
use grocery_genie.Base.{
  nat_eq, string_eq, trim, is_empty, ℕ, ◌≡◌, refl, ◌≢◌, ◌↔◌, ◌⊎◌, inl, true, false, none, some, [],
  ◌∷◌, or_else, All,
}
use grocery_genie.Review.{
  LineItemExtraction, ReceiptExtraction, EditableLineItem, original_of, correct,
  build_receipt_update,
}
use grocery_genie.Review.Corrections.{
  after_correction, correct-reviewed, IsNeeded, build_receipt_update-IsNeeded,
}

abbrev milk : LineItemExtraction ℕ
milk = record {
  id = "i1";
  name = "MLK";
  quantity = 1;
  unit_price = 199;
  total_price = 199;
  category_id = some "dairy";
  category_confidence = none;
  extraction_confidence = none;
  warnings = [];
}

abbrev named : EditableLineItem ℕ
named = record {
  id = "i1";
  name = "Milk";
  quantity = 2;
  unit_price = 199;
  total_price = 199;
  category_id = some "dairy";
  category_confidence = none;
  extraction_confidence = none;
  is_edited = true;
}

abbrev scan : ReceiptExtraction ℕ
scan = record {
  store_name = some "Aldi";
  date = "2026-01-02";
  items = milk ∷ [];
  subtotal = none;
  tax = none;
  total = some 199;
  currency = "EUR";
  confidence = 90;
  store_name_confidence = none;
  date_confidence = none;
  total_confidence = none;
  warnings = [];
}

correct-reviewed_example :
    let stored = after_correction (correct (milk ∷ []) named) milk in
    (stored.name ≡ "Milk")
    × (stored.category_id ≡ some "dairy")
    × (stored.quantity ≡ 2)
    × (stored.total_price ≡ 199)
correct-reviewed_example =
    correct-reviewed (milk ∷ []) named milk refl (unfold original_of in refl) (inl refl)

build_receipt_update-IsNeeded_example :
    let update = build_receipt_update scan (named ∷ []) " Lidl " "2026-01-02" true in
    All (IsNeeded scan.items (named ∷ [])) (or_else update.items [])
    × ((update.status ≡ some "confirmed") ↔ (true ≡ true))
    × ((update.store_name ≡ none)
        ⊎ ((update.store_name ≡ some (trim " Lidl "))
            × (scan.store_name ≢ some (trim " Lidl "))
            × (is_empty (trim " Lidl ") ≡ false)))
    × ((update.date ≡ none)
        ⊎ ((update.date ≡ some "2026-01-02")
            × ("2026-01-02" ≢ scan.date)
            × (is_empty "2026-01-02" ≡ false)))
build_receipt_update-IsNeeded_example =
    build_receipt_update-IsNeeded scan (named ∷ []) " Lidl " "2026-01-02" true

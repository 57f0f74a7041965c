-- ===== src/Review.antt =====
-- The review of a scan before it is confirmed:
-- mobile/src/features/receipt-capture/utils/buildReceiptUpdate.ts and extractionFromReceipt.ts,
-- over the types of features/receipt-capture/types/index.ts. A JavaScript number is an element of a
-- type `N` with a test of equality: this code only compares numbers.
pub mod Corrections
pub mod Form
pub mod Screen
mod Tests
use grocery_genie.Base.{
  Eq, nat_eq, string_eq, option_beq, option_beq_iff, changed, trim, is_empty, ℕ, zero, suc, ◌+◌,
  ◌-◌, ◌*◌, ◌/◌, ◌%◌, ◌≤◌, ◌<◌, String, ◌≡◌, refl, sym, ap, subst, ◌∙◌, ◌≢◌, ◌↔◌, ◌⊎◌, inl, inr,
  Bool, true, false, not, ◌&&◌, ◌||◌, Option, none, some, List, [], ◌∷◌, ◌++◌, map, append-nil,
  append_assoc, map-append, arith, str_eq, eq_iff, eq_refl, ltb, leb, ◌==◌, if◌then◌else◌, ltb→lt,
  leb→le, ==_iff, Bool-cases, Option-cases, or_else, is_some, length, select, find, any, take, drop,
  All, length-append, All-append, All-map, All-select, All-select_of, length-take-le, select-append,
}

abbrev pub cons_some {ℓ} : {A : Type ℓ} → Option A → List A → List A
cons_some none xs = xs
cons_some (some x) xs = x ∷ xs

abbrev pub same_store : Option String → String → Bool
same_store none s = false
same_store (some t) s = str_eq s t

pub record LineItemExtraction (N : Type 0) : Type 0 where
  pub id : String
  pub name : String
  pub quantity : N
  pub unit_price : N
  pub total_price : N
  pub category_id : Option String
  pub category_confidence : Option N
  pub extraction_confidence : Option N
  pub warnings : List String

pub record ReceiptExtraction (N : Type 0) : Type 0 where
  pub store_name : Option String
  pub date : String
  pub items : List (LineItemExtraction N)
  pub subtotal : Option N
  pub tax : Option N
  pub total : Option N
  pub currency : String
  pub confidence : N
  pub store_name_confidence : Option N
  pub date_confidence : Option N
  pub total_confidence : Option N
  pub warnings : List String

pub record EditableLineItem (N : Type 0) : Type 0 where
  pub id : String
  pub name : String
  pub quantity : N
  pub unit_price : N
  pub total_price : N
  pub category_id : Option String
  pub category_confidence : Option N
  pub extraction_confidence : Option N
  pub is_edited : Bool

-- A field that is not sent is `none`. `category_id` is `some none` where the code stores an
-- `undefined`: the field counts as changed and is not sent.
pub record LineItemCorrection (N : Type 0) : Type 0 where
  pub id : String
  pub name : Option String
  pub category_id : Option (Option String)
  pub quantity : Option N
  pub total_price : Option N

pub record ReceiptUpdateRequest (N : Type 0) : Type 0 where
  pub store_name : Option String
  pub date : Option String
  pub items : Option (List (LineItemCorrection N))
  pub status : Option String

module _ {N : Type 0} ⦃e : Eq N⦄ where
  -- The entry of `new Map(items.map((item) => [item.id, item]))`: the last item with this id.
  unfoldable pub original_of : String → List (LineItemExtraction N) → Option (LineItemExtraction N)
  original_of i [] = none
  original_of i (o ∷ os) =
      let later = original_of i os in
      if is_some later then later else if str_eq o.id i then some o else none

  abbrev pub correction_of : EditableLineItem N → LineItemExtraction N → LineItemCorrection N
  correction_of item o = record {
    id = item.id;
    name = if str_eq item.name o.name then none else some item.name;
    category_id = if option_beq item.category_id o.category_id then none else some item.category_id;
    quantity = if e.beq item.quantity o.quantity then none else some item.quantity;
    total_price = if e.beq item.total_price o.total_price then none else some item.total_price;
  }

  -- Object.keys(correction).length > 1
  abbrev pub says_something : LineItemCorrection N → Bool
  says_something c =
      is_some c.name || is_some c.category_id || is_some c.quantity || is_some c.total_price

  abbrev pub correct_with :
      EditableLineItem N → Option (LineItemExtraction N) → Option (LineItemCorrection N)
  correct_with item none = none
  correct_with item (some o) =
      if item.is_edited && says_something (correction_of item o)
      then some (correction_of item o)
      else none

  -- One round of the loop over the items.
  unfoldable pub correct :
      List (LineItemExtraction N) → EditableLineItem N → Option (LineItemCorrection N)
  unfolding original_of
  correct originals item = correct_with item (original_of item.id originals)

  unfoldable pub corrections :
      List (LineItemExtraction N) → List (EditableLineItem N) → List (LineItemCorrection N)
  unfolding correct
  corrections originals [] = []
  corrections originals (item ∷ items) =
      cons_some (correct originals item) (corrections originals items)

  abbrev pub non_empty : List (LineItemCorrection N) → Option (List (LineItemCorrection N))
  non_empty [] = none
  non_empty (c ∷ cs) = some (c ∷ cs)

  unfoldable pub build_receipt_update :
      ReceiptExtraction N
      → List (EditableLineItem N)
      → String
      → String
      → Bool
      → ReceiptUpdateRequest N
  unfolding corrections
  build_receipt_update x items store_name receipt_date confirm =
      let trimmed = trim store_name in
      record {
        status = if confirm then some "confirmed" else none;
        store_name =
            if is_empty trimmed || same_store x.store_name trimmed then none else some trimmed;
        date =
            if is_empty receipt_date || str_eq receipt_date x.date then none else some receipt_date;
        items = non_empty (corrections x.items items);
      }

pub record LineItemResponse (N : Type 0) : Type 0 where
  pub id : String
  pub raw_name : String
  pub quantity : N
  pub unit_price : N
  pub total_price : N
  pub unit_of_measure : Option String
  pub category_id : Option String
  pub category_confidence : Option N
  pub extraction_confidence : Option N
  pub corrected : Bool
  pub canonical_item_id : Option String

pub record ReceiptResponse (N : Type 0) : Type 0 where
  pub id : String
  pub user_id : String
  pub store_name : Option String
  pub date : String
  pub subtotal : Option N
  pub tax : Option N
  pub total : Option N
  pub currency : String
  pub image_url : Option String
  pub extraction_confidence : Option N
  pub store_name_confidence : Option N
  pub date_confidence : Option N
  pub total_confidence : Option N
  pub status : String
  pub items : List (LineItemResponse N)
  pub created_at : Option String

module _ {N : Type 0} where
  abbrev pub item_extraction : LineItemResponse N → LineItemExtraction N
  item_extraction i = record {
    id = i.id;
    name = i.raw_name;
    quantity = i.quantity;
    unit_price = i.unit_price;
    total_price = i.total_price;
    category_id = i.category_id;
    category_confidence = i.category_confidence;
    extraction_confidence = i.extraction_confidence;
    warnings = [];
  }

  -- `nought` is the number 0.
  unfoldable pub extraction_from_receipt : N → ReceiptResponse N → ReceiptExtraction N
  extraction_from_receipt nought r = record {
    store_name = some (or_else r.store_name "");
    date = r.date;
    items = map item_extraction r.items;
    subtotal = r.subtotal;
    tax = r.tax;
    total = r.total;
    currency = r.currency;
    confidence = or_else r.extraction_confidence nought;
    store_name_confidence = r.store_name_confidence;
    date_confidence = r.date_confidence;
    total_confidence = r.total_confidence;
    warnings = [];
  }

-- ===== src/Review/Screen.antt =====
-- The review screen as a whole, mobile/app/review.tsx: what may be edited, saving, and leaving. The
-- calls of the router, the prompts and the analytics so far are part of the state.
pub mod Saved
use grocery_genie.Base.{
  Eq, nat_eq, string_eq, option_beq, option_beq_iff, changed, trim, is_empty, ℕ, zero, suc, ◌+◌,
  ◌-◌, ◌*◌, ◌/◌, ◌%◌, ◌≤◌, ◌<◌, String, ◌≡◌, refl, sym, ap, subst, ◌∙◌, ◌≢◌, ◌↔◌, ◌⊎◌, inl, inr,
  Bool, true, false, not, ◌&&◌, ◌||◌, Option, none, some, List, [], ◌∷◌, ◌++◌, map, append-nil,
  append_assoc, map-append, arith, str_eq, eq_iff, eq_refl, ltb, leb, ◌==◌, if◌then◌else◌, ltb→lt,
  leb→le, ==_iff, Bool-cases, if_cases, Option-cases, or_else, is_some, length, select, find, any,
  take, drop, All, length-append, All-append, All-map, All-select, All-select_of, length-take-le,
  select-append, Pairwise, Pairwise-map,
}
use grocery_genie.Base.Int.{ℤ, pos, int_eq}
use grocery_genie.Review.{
  cons_some, same_store, LineItemExtraction, ReceiptExtraction, EditableLineItem,
  LineItemCorrection, ReceiptUpdateRequest, original_of, correction_of, says_something,
  correct_with, correct, corrections, non_empty, build_receipt_update, LineItemResponse,
  ReceiptResponse, item_extraction, extraction_from_receipt,
}
use grocery_genie.Review.Form.{
  all_items, editable, items_of, initial_items, rename, reprice, unit_price_for, requantify,
  recategorize, update_item_name, update_item_price, update_item_quantity, update_item_category,
  Edit, name_typed, price_typed, quantity_typed, category_picked, edit, edit_all,
}

pub data AbandonStage : Type 0 where
  reviewing confirmation : AbandonStage

pub record ScanResponse : Type 0 where
  pub receipt_id : String
  pub extraction : ReceiptExtraction ℤ
  pub duplicate_warning : Bool

-- What the screen is opened with: the active scan, the route's parameters and the stored receipt.
pub record Opened : Type 0 where
  pub active_scan : Option ScanResponse
  pub receipt_id : Option String
  pub edit : Option String
  pub fetched : Option (ReceiptResponse ℤ)

abbrev pub is_given : Option String → Bool
is_given none = false
is_given (some s) = not (is_empty s)

abbrev pub is_from_history : Opened → Bool
is_from_history o = is_given o.receipt_id && not (is_some o.active_scan)

abbrev pub has_status : String → Option (ReceiptResponse ℤ) → Bool
has_status status none = false
has_status status (some r) = str_eq r.status status

abbrev pub is_text : String → Option String → Bool
is_text t none = false
is_text t (some s) = str_eq s t

abbrev pub already_confirmed : Opened → Bool
already_confirmed o = is_from_history o && has_status "confirmed" o.fetched

abbrev pub is_read_only : Opened → Bool
is_read_only o =
    is_from_history o && not (has_status "pending_review" o.fetched) && not (is_text "1" o.edit)

abbrev pub fetched_id : Option (ReceiptResponse ℤ) → Option String
fetched_id none = none
fetched_id (some r) = some r.id

abbrev pub scan_id : Option ScanResponse → Option String → Option String
scan_id none stored = stored
scan_id (some a) stored = some a.receipt_id

abbrev pub editing_receipt_id : Opened → Option String
editing_receipt_id o = scan_id o.active_scan (fetched_id o.fetched)

unfoldable pub stored_extraction : Option (ReceiptResponse ℤ) → Option (ReceiptExtraction ℤ)
unfolding extraction_from_receipt
stored_extraction none = none
stored_extraction (some r) = some (extraction_from_receipt (pos 0) r)

abbrev pub extraction_of :
    Option ScanResponse → Option (ReceiptExtraction ℤ) → Option (ReceiptExtraction ℤ)
extraction_of none stored = stored
extraction_of (some a) stored = some a.extraction

unfoldable pub baseline : Opened → Option (ReceiptExtraction ℤ)
unfolding stored_extraction
baseline o = extraction_of o.active_scan (stored_extraction o.fetched)

-- `mutation_pending` is confirmMutation.isPending; `sent` holds what was given to the mutation.
pub record ReviewScreen : Type 0 where
  pub store_name : String
  pub receipt_date : String
  pub items : List (EditableLineItem ℤ)
  pub category_picker_item_id : Option String
  pub confirmed : Bool
  pub confirm_attempted : Bool
  pub mutation_pending : Bool
  pub sent : List (String × ReceiptUpdateRequest ℤ)
  pub went : List String
  pub scan_cleared : Bool
  pub prompted : List String
  pub alerts : List String
  pub abandoned : List AbandonStage

unfoldable pub first_store_name : Opened → String
unfolding baseline
first_store_name o = elim (baseline o) [ none ↦ "" | some x ↦ or_else x.store_name "" ]

unfoldable pub first_date : Opened → String
unfolding baseline
first_date o = elim (baseline o) [ none ↦ "" | some x ↦ x.date ]

-- The first state: useState, and the effect that fills in a stored receipt.
unfoldable pub open_review : Opened → ReviewScreen
unfolding baseline initial_items first_store_name first_date
open_review o = record {
  store_name = first_store_name o;
  receipt_date = first_date o;
  items = initial_items (baseline o);
  category_picker_item_id = none;
  confirmed = false;
  confirm_attempted = false;
  mutation_pending = false;
  sent = [];
  went = [];
  scan_cleared = false;
  prompted = [];
  alerts = [];
  abandoned = [];
}

abbrev pub no_items : List (EditableLineItem ℤ) → Bool
no_items [] = true
no_items (i ∷ is) = false

abbrev pub can_confirm : ReviewScreen → Bool
can_confirm s = not (is_empty (trim s.store_name)) && not (no_items s.items)

unfoldable pub start_save : Opened → ReceiptExtraction ℤ → String → ReviewScreen → ReviewScreen
unfolding build_receipt_update
start_save o x id s = record s {
  confirm_attempted = true;
  mutation_pending = true;
  sent =
      s.sent
      ++ (
        id,
        build_receipt_update x s.items s.store_name s.receipt_date (not (already_confirmed o)),
      )
        ∷ [];
}

unfoldable pub save_of :
    Opened → Option (ReceiptExtraction ℤ) → Option String → ReviewScreen → ReviewScreen
unfolding start_save
save_of o none id s = s
save_of o (some x) none s = s
save_of o (some x) (some id) s =
    if is_empty id || not (can_confirm s) then s else start_save o x id s

unfoldable pub handle_save : Opened → ReviewScreen → ReviewScreen
unfolding baseline save_of
handle_save o s =
    if is_read_only o
    then record s { went = s.went ++ "back" ∷ [] }
    else save_of o (baseline o) (editing_receipt_id o) s

abbrev pub prompt : Bool → Option String → List String → List String
prompt confirmed none ids = ids
prompt confirmed (some id) ids = if confirmed then ids else ids ++ id ∷ []

-- onSuccess and onError of the mutation.
unfoldable pub saved : Opened → ReviewScreen → ReviewScreen
saved o s = record s {
  mutation_pending = false;
  confirmed = true;
  scan_cleared = s.scan_cleared || is_some o.active_scan;
  went = s.went ++ (if is_some o.active_scan then "/(tabs)" else "back") ∷ [];
  prompted = prompt (already_confirmed o) (editing_receipt_id o) s.prompted;
}

unfoldable pub save_failed : String → ReviewScreen → ReviewScreen
save_failed message s = record s { mutation_pending = false; alerts = s.alerts ++ message ∷ [] }

-- The cleanup of the effect, when the screen goes.
unfoldable pub leave : Opened → ReviewScreen → ReviewScreen
leave o s =
    if not s.confirmed && is_some o.active_scan && not (is_read_only o)
    then record s {
      abandoned = s.abandoned ++ (if s.confirm_attempted then confirmation else reviewing) ∷ [];
    }
    else s

-- onSelect of the category picker.
unfoldable pub select_category : String → ReviewScreen → ReviewScreen
unfolding update_item_category
select_category category_id s = record s {
  items = elim (s.category_picker_item_id) [
    | none ↦ s.items
    | some i ↦ if is_empty i then s.items else update_item_category i category_id s.items
  ];
  category_picker_item_id = none;
}

pub data Step : Type 0 where
  store_typed date_picked : String → Step
  edited : Edit → Step
  picker_opened : Option String → Step
  category_selected : String → Step
  save_pressed : Step
  mutation_succeeded : Step
  mutation_failed : String → Step

-- The fields and the Save button of a read-only receipt are disabled or absent, as is Save while
-- it cannot be pressed; a mutation is answered while it is pending.
unfoldable pub step : Opened → Step → ReviewScreen → ReviewScreen
unfolding edit select_category handle_save saved save_failed
step o (store_typed t) s = if is_read_only o then s else record s { store_name = t }
step o (date_picked d) s = if is_read_only o then s else record s { receipt_date = d }
step o (edited e) s = if is_read_only o then s else record s { items = edit e s.items }
step o (picker_opened target) s =
    if is_read_only o then s else record s { category_picker_item_id = target }
step o (category_selected c) s = select_category c s
step o save_pressed s =
    if is_read_only o || not (can_confirm s) || s.mutation_pending then s else handle_save o s
step o mutation_succeeded s = if s.mutation_pending then saved o s else s
step o (mutation_failed m) s = if s.mutation_pending then save_failed m s else s

unfoldable pub run : Opened → List Step → ReviewScreen → ReviewScreen
unfolding step
run o [] s = s
run o (x ∷ xs) s = run o xs (step o x s)

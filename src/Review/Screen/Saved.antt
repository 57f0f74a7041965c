-- ===== src/Review/Screen/Saved.antt =====
-- What a review sends and records, over any sequence of edits, saves and answers.
use grocery_genie.Base.{
  nat_eq, string_eq, trim, is_empty, String, ◌≡◌, true, false, not, ◌||◌, some, List, [], ◌∷◌, leb,
  if◌then◌else◌, is_some, length, All, Pairwise,
}
use grocery_genie.Base.Int.{ℤ, int_eq}
use grocery_genie.Review.{
  ReceiptExtraction, EditableLineItem, ReceiptUpdateRequest, build_receipt_update,
}
use grocery_genie.Review.Form.{items_of}
use grocery_genie.Review.Form.Edited.{Follows}
use grocery_genie.Review.Screen.{
  AbandonStage, reviewing, confirmation, Opened, already_confirmed, is_read_only,
  editing_receipt_id, baseline, ReviewScreen, no_items,
}

-- An update that may be sent: it is for the open receipt, and is built from items that come from
-- the scan's and a store name that is not blank; it confirms the receipt unless it was confirmed
-- before.
pub record IsSaveable (o : Opened) (call : String × ReceiptUpdateRequest ℤ) : Type 0 where
  pub extraction : ReceiptExtraction ℤ
  pub items : List (EditableLineItem ℤ)
  pub store_name : String
  pub receipt_date : String
  pub from_baseline : baseline o ≡ some extraction
  pub for_receipt : editing_receipt_id o ≡ some (call.0)
  pub follow : Pairwise Follows extraction.items items
  pub named : is_empty (trim store_name) ≡ false
  pub some_items : no_items items ≡ false
  pub built :
      call.1
      ≡ build_receipt_update extraction items store_name receipt_date (not (already_confirmed o))

abbrev HasFlags : Opened → ReviewScreen → Type 0
HasFlags o s =
    (s.abandoned ≡ [])
    × (s.confirm_attempted ≡ leb 1 (length s.sent))
    × (s.confirmed ≡ true → s.confirm_attempted ≡ true)
    × (s.mutation_pending ≡ true → s.confirm_attempted ≡ true)
    × (is_read_only o ≡ true → s.sent ≡ [])

abbrev Inv : Opened → ReviewScreen → Type 0
Inv o s =
    Pairwise Follows (items_of (baseline o)) s.items × (HasFlags o s × All (IsSaveable o) s.sent)

-- The stage that leaving records: none if the receipt was confirmed, was not scanned just now or is
-- read-only, else confirmation once a save was tried.
abbrev pub abandoned_at : Opened → ReviewScreen → List AbandonStage
abandoned_at o s =
    if s.confirmed || not (is_some o.active_scan) || is_read_only o
    then []
    else (if leb 1 (length s.sent) then confirmation else reviewing) ∷ []

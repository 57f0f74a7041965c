-- ===== src/Account.antt =====
-- What the phone keeps for an account, and how it is dropped:
-- mobile/src/store/notificationStore.ts, receiptStore.ts and pushStore.ts, and
-- mobile/src/features/auth/services/clearLocalAccountData.ts.
pub mod Deletion
pub mod Leaving
pub mod Push
mod Tests
use grocery_genie.Base.{
  Eq, nat_eq, string_eq, option_beq, option_beq_iff, changed, trim, is_empty, ℕ, zero, suc, ◌+◌,
  ◌-◌, ◌*◌, ◌/◌, ◌%◌, ◌≤◌, ◌<◌, String, ◌≡◌, refl, sym, ap, subst, ◌∙◌, ◌≢◌, ◌↔◌, ◌⊎◌, inl, inr,
  Bool, true, false, not, ◌&&◌, ◌||◌, Option, none, some, List, [], ◌∷◌, ◌++◌, map, append-nil,
  append_assoc, map-append, arith, str_eq, eq_iff, eq_refl, ltb, leb, ◌==◌, if◌then◌else◌, ltb→lt,
  leb→le, ==_iff, Bool-cases, if_cases, Option-cases, or_else, is_some, length, select, find, any,
  take, drop, All, length-append, All-append, All-map, All-select, All-select_of, length-take-le,
  select-append,
}
use grocery_genie.Queue.{PendingReceipt, Queue, remove_pending_receipt}
use grocery_genie.Auth.Store.{Works, Device, clear}

pub record NotificationPreferences : Type 0 where
  pub fifty_percent : Bool
  pub eighty_percent : Bool
  pub hundred_percent : Bool
  pub weekly_summary_enabled : Bool
  pub weekly_summary_day : ℕ

abbrev pub initial_preferences : NotificationPreferences
initial_preferences = record {
  fifty_percent = false;
  eighty_percent = true;
  hundred_percent = true;
  weekly_summary_enabled = true;
  weekly_summary_day = 0;
}

pub data Threshold : Type 0 where
  fifty eighty hundred : Threshold

unfoldable pub set_threshold : Threshold → Bool → NotificationPreferences → NotificationPreferences
set_threshold fifty enabled p = record p { fifty_percent = enabled }
set_threshold eighty enabled p = record p { eighty_percent = enabled }
set_threshold hundred enabled p = record p { hundred_percent = enabled }

unfoldable pub set_weekly_summary_enabled : Bool → NotificationPreferences → NotificationPreferences
set_weekly_summary_enabled enabled p = record p { weekly_summary_enabled = enabled }

unfoldable pub set_weekly_summary_day : ℕ → NotificationPreferences → NotificationPreferences
set_weekly_summary_day day p = record p { weekly_summary_day = day }

-- The receipt store; of the active scan response the receipt id is kept.
pub record ReceiptState : Type 0 where
  pub pending_ids : List String
  pub captured_image_uri : Option String
  pub active_scan_response : Option String

unfoldable pub add_pending_id : String → ReceiptState → ReceiptState
add_pending_id i s = record s { pending_ids = s.pending_ids ++ i ∷ [] }

unfoldable pub remove_pending_id : String → ReceiptState → ReceiptState
remove_pending_id i s = record s { pending_ids = select (λ j. not (str_eq j i)) s.pending_ids }

unfoldable pub set_captured_image_uri : Option String → ReceiptState → ReceiptState
set_captured_image_uri uri s = record s { captured_image_uri = uri }

unfoldable pub set_active_scan_response : Option String → ReceiptState → ReceiptState
set_active_scan_response r s = record s { active_scan_response = r }

unfoldable pub clear_scan_session : ReceiptState → ReceiptState
clear_scan_session s = record s { captured_image_uri = none; active_scan_response = none }

-- The stores together, with the photos deleted so far.
pub record Local : Type 0 where
  pub queue : Queue
  pub deleted : List String
  pub preferences : NotificationPreferences
  pub push_token : Option String
  pub receipts : ReceiptState
  pub device : Device

unfoldable pub owned_by : String → Queue → List PendingReceipt
owned_by owner q = select (λ r. str_eq r.owner_id owner) q

-- The loop over the owner's receipts: each photo is deleted and its entry removed.
unfoldable pub forget : List PendingReceipt → Local → Local
forget [] l = l
forget (r ∷ rs) l = forget rs (record l {
  deleted = l.deleted ++ r.image_uri ∷ [];
  queue = remove_pending_receipt r.id l.queue;
})

unfoldable pub forget_owner : Option String → Local → Local
unfolding forget owned_by
forget_owner none l = l
forget_owner (some owner) l = if str_eq owner "" then l else forget (owned_by owner l.queue) l

unfoldable pub clear_local_account_data : Works → Option String → Local → Local
unfolding forget_owner
clear_local_account_data w owner l =
    let l' = forget_owner owner l in
    record l' {
      preferences = initial_preferences;
      push_token = none;
      receipts = clear_scan_session l'.receipts;
      device = clear w l'.device;
    }

-- ===== src/Scan/Import.antt =====
-- Importing a receipt from the photo library or Files:
-- mobile/src/features/receipt-capture/services/receiptImport.ts. The pickers are not in the
-- repository: what they return is an argument.
pub mod Checks
pub mod Outcome
use Prim.Native.String
use grocery_genie.Base.{
  ℕ, zero, suc, ◌+◌, ◌-◌, ◌*◌, ◌/◌, ◌%◌, ◌≤◌, ◌<◌, String, ◌≡◌, refl, sym, ap, subst, ◌∙◌, ◌≢◌, ◌↔◌,
  ◌⊎◌, inl, inr, Bool, true, false, not, ◌&&◌, ◌||◌, Option, none, some, List, [], ◌∷◌, ◌++◌, map,
  append-nil, append_assoc, map-append, arith, str_eq, eq_iff, eq_refl, ltb, leb, ◌==◌,
  if◌then◌else◌, ltb→lt, leb→le, ==_iff, Bool-cases, Option-cases, or_else, is_some, length, select,
  find, any, take, drop, All, length-append, All-append, All-map, All-select, All-select_of,
  length-take-le, select-append,
}
use grocery_genie.Errors.{
  Detail, missing, text, coded, other_detail, ErrorBody, ApiError, Thrown, api, other, body_detail,
  body_code, is_text, coded_detail, api_error_code, quota_text, is_quota_exceeded_error,
  is_ai_consent_required_error, retryable_status, is_retryable_scan_error, quota_message,
  read_failure, detail_message, scan_error_message, hints, quota_hint, fallback_hint, better,
  best_hint, hint_of, detail_hint, scan_error_hint,
}
use grocery_genie.Errors.Search.{codes, fold_case, starts, search_from, search_text, contains}
use grocery_genie.Queue.{
  ScanSource, camera, library, pdf, manual, Status, pending, syncing, failed, Failure, unreadable,
  quota, PendingReceipt, Capture, Queue, add_pending_receipt, modify, update_status,
  mark_attempt_failed, hold_for_consent, mark_failed, requeue, remove_pending_receipt, owned,
  orphan_images, migrate, wake, merge,
}

-- MAX_UPLOAD_BYTES, MIN_IMAGE_WIDTH, ACCEPTED_TYPES, TYPE_BY_EXTENSION
abbrev pub max_upload_bytes : ℕ
max_upload_bytes = 10485760

abbrev pub min_image_width : ℕ
min_image_width = 300

abbrev pub accepted_types : List String
accepted_types = "image/jpeg" ∷ "image/png" ∷ "image/heic" ∷ "image/heif" ∷ "application/pdf" ∷ []

abbrev pub type_by_extension : List (String × String)
type_by_extension =
    ("jpg", "image/jpeg")
    ∷ ("jpeg", "image/jpeg")
    ∷ ("png", "image/png")
    ∷ ("heic", "image/heic")
    ∷ ("heif", "image/heif")
    ∷ ("pdf", "application/pdf")
    ∷ []

pub record PickedReceipt : Type 0 where
  pub uri : String
  pub mime_type : String
  pub source : ScanSource
  pub preview_uri : Option String

-- The messages of a rejected file; the width is shown in the text.
pub data Problem : Type 0 where
  too_large : Problem
  too_narrow : ℕ → Problem
  unsupported_type : Problem

pub data PickOutcome : Type 0 where
  canceled : PickOutcome
  rejected : Problem → PickOutcome
  picked : PickedReceipt → PickOutcome

-- What a picker gives: nothing, or one file. The photo library gives no name, Files no width.
pub record Asset : Type 0 where
  pub uri : String
  pub name : String
  pub size : Option ℕ
  pub width : Option ℕ
  pub mime_type : Option String

abbrev pub exceeds : Option ℕ → ℕ → Bool
exceeds none bound = false
exceeds (some n) bound = ltb bound n

abbrev pub width_problem : Option ℕ → Option Problem
width_problem none = none
width_problem (some w) = if ltb w min_image_width then some (too_narrow w) else none

unfoldable pub check_file : Option ℕ → Option ℕ → Option Problem
check_file size width =
    if exceeds size max_upload_bytes then some too_large else width_problem width

unfoldable pub picked_file : String → String → PickOutcome
picked_file uri mime_type =
    let is_pdf = str_eq mime_type "application/pdf" in
    picked (record {
      uri = uri;
      mime_type = mime_type;
      source = if is_pdf then pdf else library;
      preview_uri = if is_pdf then none else some uri;
    })

abbrev pub unless : Option Problem → PickOutcome → PickOutcome
unless none outcome = outcome
unless (some p) outcome = rejected p

unfoldable pub from_library_result : Option Asset → PickOutcome
unfolding check_file picked_file
from_library_result none = canceled
from_library_result (some a) =
    unless (check_file a.size a.width) (picked_file a.uri (or_else a.mime_type "image/jpeg"))

-- name.split('.').pop().toLowerCase(), by code points. Of the letters beyond ASCII none becomes a
-- letter of an extension of the table.
unfoldable pub extension_from : List ℕ → List ℕ → List ℕ
unfolding fold_case
extension_from acc [] = acc
extension_from acc (c ∷ name) =
    extension_from (if c == b'.' then [] else acc ++ fold_case c ∷ []) name

abbrev pub same_codes : List ℕ → List ℕ → Bool
same_codes [] [] = true
same_codes (a ∷ as') (b ∷ bs) = a == b && same_codes as' bs
same_codes _ _ = false

unfoldable pub lookup_type : List ℕ → List (String × String) → Option String
lookup_type extension [] = none
lookup_type extension ((e, t) ∷ table) =
    if same_codes extension (codes e) then some t else lookup_type extension table

abbrev pub first_type : Option String → Option String → Option String
first_type (some t) guess = some t
first_type none guess = guess

abbrev pub supported : String → Bool
supported t = any (λ a. str_eq a t) accepted_types

unfoldable pub from_typed : Option String → Asset → PickOutcome
unfolding check_file picked_file
from_typed none a = rejected unsupported_type
from_typed (some t) a =
    if not (supported t)
    then rejected unsupported_type
    else unless (check_file a.size none) (picked_file a.uri t)

unfoldable pub from_document_result : Option Asset → PickOutcome
unfolding from_typed extension_from lookup_type
from_document_result none = canceled
from_document_result (some a) =
    from_typed
      (first_type a.mime_type (lookup_type (extension_from [] (codes a.name)) type_by_extension)) a

-- How `upload` ends: the receipt's id, or what it threw.
pub data Upload : Type 0 where
  scanned : String → Upload
  refused : Thrown → Upload

pub data ImportResult : Type 0 where
  import_canceled queued consent_required over_quota : ImportResult
  bad_file : Problem → ImportResult
  failed_with : String → ImportResult
  ready : String → String → ImportResult

-- `queue` is not given, or it is tried: `true` if it saved the file, `false` if it threw.
abbrev pub saved : Option (PickedReceipt → Bool) → PickedReceipt → Bool
saved none r = false
saved (some queue) r = queue r

unfoldable pub after_refusal : Option (PickedReceipt → Bool) → PickedReceipt → Thrown → ImportResult
after_refusal queue r e =
    if is_ai_consent_required_error e
    then consent_required
    else if is_quota_exceeded_error e
    then over_quota
    else if is_retryable_scan_error e && saved queue r
    then queued
    else failed_with (scan_error_message e)

abbrev pub image_path : String → String
image_path receipt_id = String.◌++◌ "/api/receipts/" (String.◌++◌ receipt_id "/image")

unfoldable pub after_upload : Option (PickedReceipt → Bool) → PickedReceipt → Upload → ImportResult
unfolding after_refusal
after_upload queue r (scanned receipt_id) =
    ready receipt_id (or_else r.preview_uri (image_path receipt_id))
after_upload queue r (refused e) = after_refusal queue r e

unfoldable pub import_receipt :
    PickOutcome → (PickedReceipt → Upload) → Option (PickedReceipt → Bool) → ImportResult
unfolding after_upload
import_receipt canceled upload queue = import_canceled
import_receipt (rejected p) upload queue = bad_file p
import_receipt (picked r) upload queue = after_upload queue r (upload r)

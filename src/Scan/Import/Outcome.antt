-- ===== src/Scan/Import/Outcome.antt =====
-- How an import ends.
use grocery_genie.Base.{String, ◌≡◌, refl, ◌↔◌, Bool, true, Option, arith, or_else}
use grocery_genie.Errors.{
  Thrown, is_quota_exceeded_error, is_ai_consent_required_error, is_retryable_scan_error,
}
use grocery_genie.Errors.Kinds.{error_kinds_exclusive}
use grocery_genie.Scan.Import.{
  PickedReceipt, picked, scanned, refused, queued, consent_required, over_quota, ready, saved,
  after_refusal, image_path, import_receipt,
}

refusal_cases :
    (queue : Option (PickedReceipt → Bool)) (r : PickedReceipt) (e : Thrown)
    → ((after_refusal queue r e ≡ queued)
        ↔ ((is_retryable_scan_error e ≡ true) × (saved queue r ≡ true)))
      × ((after_refusal queue r e ≡ consent_required) ↔ (is_ai_consent_required_error e ≡ true))
      × ((after_refusal queue r e ≡ over_quota) ↔ (is_quota_exceeded_error e ≡ true))
unfolding after_refusal
refusal_cases queue r e = ground (arith, error_kinds_exclusive e)

-- When the upload of a picked file is refused, the import ends as `queued` exactly if the failure
-- lay outside the file and `queue` saved it, as `consent-required` exactly for the consent refusal,
-- and as `quota` exactly for the monthly cap; an upload that succeeds ends as `ready`, with the
-- file's own preview if it has one, else the server's picture of the receipt.
import_receipt_cases :
    (r : PickedReceipt) (queue : Option (PickedReceipt → Bool)) (e : Thrown) (i : String)
    → ((import_receipt (picked r) (λ x. refused e) queue ≡ queued)
        ↔ ((is_retryable_scan_error e ≡ true) × (saved queue r ≡ true)))
      × ((import_receipt (picked r) (λ x. refused e) queue ≡ consent_required)
          ↔ (is_ai_consent_required_error e ≡ true))
      × ((import_receipt (picked r) (λ x. refused e) queue ≡ over_quota)
          ↔ (is_quota_exceeded_error e ≡ true))
      × (import_receipt (picked r) (λ x. scanned i) queue
          ≡ ready i (or_else r.preview_uri (image_path i)))
unfolding import_receipt
import_receipt_cases r queue e i =
    let cases = refusal_cases queue r e in (cases.0, cases.1, cases.2, refl)

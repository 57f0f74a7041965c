-- ===== src/Errors.antt =====
-- What a failed request of the app means: mobile/src/services/api.ts (ApiError, apiErrorCode),
-- features/receipt-capture/utils/scanQuota.ts and scanErrorHint.ts, services/offlineQueue.ts
-- (isRetryableScanError), services/receiptImport.ts (scanErrorMessage),
-- features/ai-consent/utils/aiConsent.ts and features/premium/utils/waitlistOffer.ts.
pub mod Search
pub mod Kinds
pub mod Earliest
mod Tests
use Search.{contains, search_text}
use grocery_genie.Base.{
  ℕ, String, Bool, true, false, not, ◌&&◌, ◌||◌, List, [], ◌∷◌, Option, none, some, str_eq, leb,
  ltb, ◌==◌, if◌then◌else◌, or_else,
}

-- The `detail` of an error body: missing, a text, an object with a text `code`, or anything else.
pub data Detail : Type 0 where
  missing : Detail
  text : String → Detail
  coded : String → Detail
  other_detail : Detail

-- The parsed body of an error answer; the app reads nothing else of it.
pub record ErrorBody : Type 0 where
  pub detail : Detail
  pub code : Option String

pub record ApiError : Type 0 where
  pub status : ℕ
  pub body : Option ErrorBody

-- What a `catch` gets: an answer of the server, or anything else (`fetch` throws a TypeError).
pub data Thrown : Type 0 where
  api : ApiError → Thrown
  other : Thrown

abbrev pub body_detail : Option ErrorBody → Detail
body_detail none = missing
body_detail (some b) = b.detail

abbrev pub body_code : Option ErrorBody → Option String
body_code none = none
body_code (some b) = b.code

abbrev pub is_text : Option String → String → Bool
is_text none t = false
is_text (some s) t = str_eq s t

abbrev pub coded_detail : Detail → Option String
coded_detail (coded c) = some c
coded_detail _ = none

unfoldable pub api_error_code : Thrown → Option String
api_error_code (api e) = coded_detail (body_detail e.body)
api_error_code other = none

abbrev pub quota_text : Detail → Bool
unfolding contains
quota_text (text t) = contains "quota" t
quota_text _ = false

unfoldable pub is_quota_exceeded_error : Thrown → Bool
is_quota_exceeded_error (api e) =
    e.status == 429
    && (is_text (body_code e.body) "receipt_quota_exceeded" || quota_text (body_detail e.body))
is_quota_exceeded_error other = false

unfoldable pub is_ai_consent_required_error : Thrown → Bool
unfolding api_error_code
is_ai_consent_required_error (api e) =
    e.status == 403 && is_text (api_error_code (api e)) "ai_consent_required"
is_ai_consent_required_error other = false

-- RETRYABLE_STATUSES
abbrev pub retryable_status : ℕ → Bool
retryable_status s = s == 401 || s == 408 || s == 429

unfoldable pub is_retryable_scan_error : Thrown → Bool
is_retryable_scan_error (api e) =
    if is_quota_exceeded_error (api e) then false else retryable_status e.status || leb 500 e.status
is_retryable_scan_error other = true

abbrev pub quota_message : String
quota_message = "Premium has unlimited receipts. You can still add this receipt with manual entry."

abbrev pub read_failure : String
read_failure = "We couldn’t read this receipt. Check your connection and try again."

abbrev pub detail_message : Detail → String
detail_message (text t) = if str_eq t "" then read_failure else t
detail_message _ = read_failure

unfoldable pub scan_error_message : Thrown → String
scan_error_message (api e) =
    if is_quota_exceeded_error (api e) then quota_message else detail_message (body_detail e.body)
scan_error_message other = read_failure

-- One entry of HINTS: the pattern and the wording.
abbrev pub hints : List (String × String)
hints =
    ("blurry", "Image looks blurry — hold steady")
    ∷ ("too dark", "Too dark — find more light")
    ∷ ("too bright", "Too much glare — tilt the receipt")
    ∷ ("appear to be a receipt", "That doesn’t look like a receipt")
    ∷ []

abbrev pub quota_hint : String
quota_hint = "Monthly scan limit reached"

abbrev pub fallback_hint : String
fallback_hint = "Couldn’t read that — try again"

-- One round of the loop over HINTS: `best` is the earliest match so far.
abbrev pub better : Option (ℕ × String) → Option ℕ → String → Option (ℕ × String)
better best none hint = best
better none (some at) hint = some (at, hint)
better (some (b, h)) (some at) hint = if ltb at b then some (at, hint) else some (b, h)

unfoldable pub best_hint :
    Option (ℕ × String) → List (String × String) → String → Option (ℕ × String)
best_hint best [] detail = best
best_hint best ((pattern_text, hint) ∷ rest) detail =
    best_hint (better best (search_text pattern_text detail) hint) rest detail

abbrev pub hint_of : Option (ℕ × String) → String
hint_of none = fallback_hint
hint_of (some (at, hint)) = hint

abbrev pub detail_hint : Detail → String
detail_hint (text t) = hint_of (best_hint none hints t)
detail_hint _ = fallback_hint

unfoldable pub scan_error_hint : Thrown → String
scan_error_hint (api e) =
    if is_quota_exceeded_error (api e)
    then quota_hint
    else if not (e.status == 422)
    then fallback_hint
    else detail_hint (body_detail e.body)
scan_error_hint other = fallback_hint

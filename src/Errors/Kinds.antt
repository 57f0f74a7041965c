-- ===== src/Errors/Kinds.antt =====
-- The three readings of a failed upload exclude one another.
use grocery_genie.Base.{◌≤◌, ◌≡◌, ◌↔◌, ◌⊎◌, true, false, ◌&&◌, arith}
use grocery_genie.Errors.{
  ApiError, Thrown, api, other, is_quota_exceeded_error, is_ai_consent_required_error,
  is_retryable_scan_error,
}

-- No failed upload is read in two ways of these: refused for consent, over the monthly quota, and
-- worth a retry.
pub error_kinds_exclusive :
    (e : Thrown)
    → (is_ai_consent_required_error e && is_quota_exceeded_error e ≡ false)
      × (is_ai_consent_required_error e && is_retryable_scan_error e ≡ false)
      × (is_quota_exceeded_error e && is_retryable_scan_error e ≡ false)
unfolding is_ai_consent_required_error is_quota_exceeded_error is_retryable_scan_error
error_kinds_exclusive (api e) = ground arith
error_kinds_exclusive other = ground arith

-- An answer of the server is worth a retry exactly for 401, 408, a 429 that is not the monthly
-- quota, and 500 and above.
is_retryable_scan_error_iff :
    (e : ApiError)
    → (is_retryable_scan_error (api e) ≡ true) ↔ (
        (e.status ≡ 401)
        ⊎ (e.status ≡ 408)
        ⊎ ((e.status ≡ 429) × (is_quota_exceeded_error (api e) ≡ false))
        ⊎ (500 ≤ e.status))
unfolding is_quota_exceeded_error is_retryable_scan_error
is_retryable_scan_error_iff e = ground arith

-- ===== src/Errors/Tests.antt =====
-- Failed requests as the server words them.
use grocery_genie.Base.{nat_eq, string_eq, ℕ, ◌≡◌, refl, none, some}
use grocery_genie.Errors.{
  Detail, text, ApiError, api, is_quota_exceeded_error, best_hint, scan_error_hint,
}
use grocery_genie.Errors.Search.{search_text}

abbrev refused_with : ℕ → Detail → ApiError
refused_with s d = record { status = s; body = some (record { detail = d; code = none }) }

hint_dark_first :
    scan_error_hint (api (refused_with 422 (text "Image is too dark and looks blurry")))
    ≡ "Too dark — find more light"
unfolding scan_error_hint is_quota_exceeded_error best_hint search_text
hint_dark_first = refl

-- ===== src/Auth/Client.antt =====
-- A request to the API with its token refresh: mobile/src/services/api.ts (refreshTokens,
-- getOrRefreshToken, apiClient). The network is a parameter: the answer to each request, by the
-- token that it carried, and the answer to the refresh call.
pub mod Refresh
use grocery_genie.Base.{
  ℕ, zero, suc, ◌+◌, ◌-◌, ◌*◌, ◌/◌, ◌%◌, ◌≤◌, ◌<◌, String, ◌≡◌, refl, sym, ap, subst, ◌∙◌, ◌≢◌, ◌↔◌,
  ◌⊎◌, inl, inr, Bool, true, false, not, ◌&&◌, ◌||◌, Option, none, some, List, [], ◌∷◌, ◌++◌, map,
  append-nil, append_assoc, map-append, arith, str_eq, eq_iff, eq_refl, ltb, leb, ◌==◌,
  if◌then◌else◌, ltb→lt, leb→le, ==_iff, Bool-cases, Option-cases, or_else, is_some, length, select,
  find, any, take, drop, All, length-append, All-append, All-map, All-select, All-select_of,
  length-take-le, select-append,
}
use grocery_genie.Errors.{
  Detail, missing, text, coded, other_detail, ErrorBody, ApiError, Thrown, api, other, body_detail,
  body_code, is_text, coded_detail, api_error_code, quota_text, is_quota_exceeded_error,
  is_ai_consent_required_error, retryable_status, is_retryable_scan_error, quota_message,
  read_failure, detail_message, scan_error_message, hints, quota_hint, fallback_hint, better,
  best_hint, hint_of, detail_hint, scan_error_hint,
}
use grocery_genie.Auth.Store.{
  Session, Keychain, Works, Device, safe_get, safe_set, safe_delete, initial, is_one, hydrate,
  set_user, set_session, set_access_token, clear, mark_first_run_completed, restart,
}

-- An answer of the server: its status, and its body if that is JSON.
pub record Response : Type 0 where
  pub status : ℕ
  pub body : Option String
  pub error_body : Option ErrorBody

pub record TokenPair : Type 0 where
  pub access_token : String
  pub refresh_token : String

-- The answer to POST /api/auth/refresh: `fetch` or the body's JSON throws, it is not ok, or it
-- brings a new pair.
pub data RefreshAnswer : Type 0 where
  lost : RefreshAnswer
  denied : RefreshAnswer
  renewed : TokenPair → RefreshAnswer

pub record Server : Type 0 where
  -- `none`: `fetch` throws.
  -- It is asked for the first request (0) and for the retry (1).
  pub answer : ℕ → Option String → Option Response
  pub refresh : String → RefreshAnswer

-- How apiClient ends: a parsed body, no content, or what it throws.
pub data Ending : Type 0 where
  parsed : String → Ending
  no_content : Ending
  thrown : Thrown → Ending

-- The device after the call, how it ended, and the tokens of the requests sent.
pub record Call : Type 0 where
  pub device : Device
  pub ending : Ending
  pub sent : List (Option String)

abbrev pub is_ok : ℕ → Bool
is_ok s = leb 200 s && ltb s 300

-- The tail of apiClient, once the 401 is dealt with.
abbrev pub body_of : Option String → Ending
body_of none = thrown other
body_of (some b) = parsed b

unfoldable pub conclude : Response → Ending
conclude r =
    if not (is_ok r.status)
    then thrown (api (record { status = r.status; body = r.error_body }))
    else if r.status == 204
    then no_content
    else body_of r.body

-- One request and no more: `skipAuth`, `retried`, or an answer other than 401.
abbrev pub settle : Device → List (Option String) → Option Response → Call
settle d sent none = record { device = d; ending = thrown other; sent = sent }
settle d sent (some r) = record { device = d; ending = conclude r; sent = sent }

-- refreshTokens: without a refresh token there is no call.
pub data Refreshed : Type 0 where
  failed : Refreshed
  no_token : Refreshed
  token : String → Device → Refreshed

abbrev pub store_pair : Works → Device → RefreshAnswer → Refreshed
store_pair w d lost = failed
store_pair w d denied = no_token
store_pair w d (renewed p) =
    token p.access_token (set_session w p.access_token p.refresh_token none d)

abbrev pub refresh_with : Works → Server → Device → Option String → Refreshed
refresh_with w s d none = no_token
refresh_with w s d (some r) = if str_eq r "" then no_token else store_pair w d (s.refresh r)

unfoldable pub refresh_tokens : Works → Server → Device → Refreshed
refresh_tokens w s d = refresh_with w s d d.session.refresh_token

-- getAuthHeaders: an empty token is none.
abbrev pub header_of : Option String → Option String
header_of none = none
header_of (some t) = if str_eq t "" then none else some t

-- The request's token: none with `skipAuth`.
abbrev pub token_of : Bool → Device → Option String
token_of skip_auth d = if skip_auth then none else header_of d.session.access_token

abbrev pub signed_out : Works → Device → Response → Option String → Call
signed_out w d r t = record { device = clear w d; ending = conclude r; sent = t ∷ [] }

-- After a 401: the retry with the new token, or a sign-out.
unfoldable pub after_401 : Works → Server → Device → Response → Refreshed → Call
after_401 w s d r failed = record {
  device = d;
  ending = thrown other;
  sent = token_of false d ∷ [];
}
after_401 w s d r no_token = signed_out w d r (token_of false d)
after_401 w s d r (token t d') =
    if str_eq t ""
    then signed_out w d' r (token_of false d)
    else settle d' (token_of false d ∷ token_of false d' ∷ []) (s.answer 1 (token_of false d'))

unfoldable pub first_answer : Works → Server → Bool → Device → Option Response → Call
unfolding after_401 refresh_tokens
first_answer w s skip_auth d none = settle d (token_of skip_auth d ∷ []) none
first_answer w s skip_auth d (some r) =
    if r.status == 401 && not skip_auth
    then after_401 w s d r (refresh_tokens w s d)
    else settle d (token_of skip_auth d ∷ []) (some r)

unfoldable pub api_client : Works → Server → Bool → Device → Call
unfolding first_answer
api_client w s skip_auth d = first_answer w s skip_auth d (s.answer 0 (token_of skip_auth d))

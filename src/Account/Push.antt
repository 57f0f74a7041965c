-- ===== src/Account/Push.antt =====
-- Registering this phone for pushes, and giving the token back:
-- mobile/src/features/notifications/registerForPush.ts and releasePushToken.ts. The calls of the
-- platform and the server are arguments; `none` says that a call throws.
pub mod Consent
use grocery_genie.Base.{
  Eq, nat_eq, string_eq, option_beq, option_beq_iff, changed, trim, is_empty, ℕ, zero, suc, ◌+◌,
  ◌-◌, ◌*◌, ◌/◌, ◌%◌, ◌≤◌, ◌<◌, String, ◌≡◌, refl, sym, ap, subst, ◌∙◌, ◌≢◌, ◌↔◌, ◌⊎◌, inl, inr,
  Bool, true, false, not, ◌&&◌, ◌||◌, Option, none, some, List, [], ◌∷◌, ◌++◌, map, append-nil,
  append_assoc, map-append, arith, str_eq, eq_iff, eq_refl, ltb, leb, ◌==◌, if◌then◌else◌, ltb→lt,
  leb→le, ==_iff, Bool-cases, if_cases, Option-cases, or_else, is_some, length, select, find, any,
  take, drop, All, length-append, All-append, All-map, All-select, All-select_of, length-take-le,
  select-append,
}

pub data PermissionStatus : Type 0 where
  granted refused undetermined : PermissionStatus

pub record PushDeps : Type 0 where
  pub get_permission_status : Option PermissionStatus
  pub request_permission : Option PermissionStatus
  pub get_expo_push_token : String → Option String
  pub register : String → Bool

-- What came of it: the result, whether the user was asked, and the token that was sent.
pub record Registration : Type 0 where
  pub result : Option String
  pub asked : Bool
  pub sent : Option String

abbrev pub nothing : Bool → Registration
nothing asked = record { result = none; asked = asked; sent = none }

abbrev pub send_token : Bool → PushDeps → Option String → Registration
send_token asked d none = nothing asked
send_token asked d (some t) = record {
  result = if d.register t then some t else none;
  asked = asked;
  sent = some t;
}

abbrev pub with_status : Bool → String → PushDeps → Option PermissionStatus → Registration
with_status asked project d (some granted) = send_token asked d (d.get_expo_push_token project)
with_status asked project d _ = nothing asked

unfoldable pub first_status : String → PushDeps → Option PermissionStatus → Registration
first_status project d (some undetermined) = with_status true project d d.request_permission
first_status project d (some granted) = with_status false project d (some granted)
first_status project d (some refused) = with_status false project d (some refused)
first_status project d none = nothing false

unfoldable pub register_for_push : Option String → PushDeps → Registration
unfolding first_status
register_for_push none d = nothing false
register_for_push (some project) d =
    if str_eq project "" then nothing false else first_status project d d.get_permission_status

-- The token after the release, and the tokens that `unregister` was called with.
unfoldable pub release_push_token : Option String → Option String × List String
release_push_token none = (none, [])
release_push_token (some t) = if str_eq t "" then (some t, []) else (none, t ∷ [])

-- ===== src/Account/Push/Consent.antt =====
-- A token leaves the phone only with the user's permission.
use grocery_genie.Base.{
  nat_eq, string_eq, String, ◌≡◌, refl, ◌↔◌, ◌⊎◌, Bool, true, false, Option, none, some, arith,
  str_eq,
}
use grocery_genie.Account.Push.{
  PermissionStatus, granted, refused, undetermined, PushDeps, with_status, first_status,
  register_for_push,
}

-- The permission there was, or that the user gave when asked.
abbrev pub Permitted : PushDeps → Type 0
Permitted d =
    (d.get_permission_status ≡ some granted)
    ⊎ ((d.get_permission_status ≡ some undetermined) × (d.request_permission ≡ some granted))

with_status-sent :
    (asked : Bool) (project : String) (d : PushDeps) (o : Option PermissionStatus)
    → let r = with_status asked project d o in
      ((r.sent ≡ none) ⊎ ((o ≡ some granted) × (r.sent ≡ d.get_expo_push_token project)))
      × ((r.result ≡ none) ⊎ (r.result ≡ r.sent))
      × (r.asked ≡ asked)
with_status-sent asked project d none = ground arith
with_status-sent asked project d (some refused) = ground arith
with_status-sent asked project d (some undetermined) = ground arith
with_status-sent asked project d (some granted) = ground arith

first_status-sent :
    (project : String) (d : PushDeps) (o : Option PermissionStatus)
    → d.get_permission_status ≡ o
    → let r = first_status project d o in
      ((r.sent ≡ none) ⊎ (Permitted d × (r.sent ≡ d.get_expo_push_token project)))
      × ((r.result ≡ none) ⊎ (r.result ≡ r.sent))
      × ((r.asked ≡ true) ↔ (o ≡ some undetermined))
unfolding first_status
first_status-sent project d none e = ground arith
first_status-sent project d (some granted) e =
    ground (arith, with_status-sent false project d (some granted))
first_status-sent project d (some refused) e =
    ground (arith, with_status-sent false project d (some refused))
first_status-sent project d (some undetermined) e =
    ground (arith, with_status-sent true project d d.request_permission)

-- A push token is sent only with the permission that the user gave, at this call or before; the
-- result is the token sent or none; and the user is asked exactly if that was still undetermined.
register_for_push-Permitted :
    (project : String) (d : PushDeps)
    → str_eq project "" ≡ false
    → let r = register_for_push (some project) d in
      ((r.sent ≡ none) ⊎ (Permitted d × (r.sent ≡ d.get_expo_push_token project)))
      × ((r.result ≡ none) ⊎ (r.result ≡ r.sent))
      × ((r.asked ≡ true) ↔ (d.get_permission_status ≡ some undetermined))
unfolding register_for_push
register_for_push-Permitted project d named =
    rw named (first_status-sent project d d.get_permission_status refl)

-- ===== src/Account/Leaving.antt =====
-- Signing in, out, and deleting the account: persistTokens, useSignIn, useSignOut and
-- useDeleteAccount of mobile/src/features/auth/hooks/useAuth.ts, over the stores of the phone. Apple's
-- sheet is given by its answer. Signing out and deleting call the server by apiClient, which may
-- refresh or clear the session; each request is recorded with the token that it carried.
pub mod Kept
pub mod Released
use grocery_genie.Base.{
  Eq, nat_eq, string_eq, option_beq, option_beq_iff, changed, trim, is_empty, ℕ, zero, suc, ◌+◌,
  ◌-◌, ◌*◌, ◌/◌, ◌%◌, ◌≤◌, ◌<◌, String, ◌≡◌, refl, sym, ap, subst, ◌∙◌, ◌≢◌, ◌↔◌, ◌⊎◌, inl, inr,
  Bool, true, false, not, ◌&&◌, ◌||◌, Option, none, some, List, [], ◌∷◌, ◌++◌, map, append-nil,
  append_assoc, map-append, arith, str_eq, eq_iff, eq_refl, ltb, leb, ◌==◌, if◌then◌else◌, ltb→lt,
  leb→le, ==_iff, Bool-cases, if_cases, Option-cases, or_else, is_some, length, select, find, any,
  take, drop, All, length-append, All-append, All-map, All-select, All-select_of, length-take-le,
  select-append, Pairwise, Pairwise-map,
}
use grocery_genie.Errors.{Thrown, api_error_code, is_text}
use grocery_genie.Auth.Store.{Works, Device, set_session, clear}
use grocery_genie.Auth.Client.{Server, Ending, parsed, no_content, thrown, api_client}
use grocery_genie.Account.{Local, clear_local_account_data}
use grocery_genie.Account.Push.{release_push_token}

pub data Call : Type 0 where
  unregister : String → Call
  sign_out_call : Call
  delete_call : Option String → Call

-- The phone, the calls so far, whether the query cache holds anything, and the queries that were
-- marked stale.
pub record Account : Type 0 where
  pub local : Local
  pub calls : List (Call × Option String)
  pub cache_filled : Bool
  pub invalidated : List String

unfoldable pub persist_tokens : Works → String → String → Local → Local
unfolding set_session
persist_tokens w access refresh l = record l { device = set_session w access refresh none l.device }

-- onSuccess of signing up or in, by password, Apple or Google.
unfoldable pub signed_in : Works → String → String → Account → Account
unfolding persist_tokens
signed_in w access refresh a = record a {
  local = persist_tokens w access refresh a.local;
  invalidated = a.invalidated ++ "auth/me" ∷ [];
}

-- A call by apiClient: the phone after it, and how it ended.
unfoldable pub request : Works → Server → Call → Account → Account × Ending
unfolding api_client
request w server c a =
    let called = api_client w server false a.local.device in
    (
      record a {
        local = record (a.local) { device = called.device };
        calls = a.calls ++ map (λ token. (c, token)) called.sent;
      },
      called.ending,
    )

-- `unregister` for each token; a failed call is ignored.
unfoldable pub unregister_all : Works → Server → List String → Account → Account
unfolding request
unregister_all w server [] a = a
unregister_all w server (t ∷ ts) a =
    unregister_all w server ts (request w server (unregister t) a).0

unfoldable pub release : Works → Server → Account → Account
unfolding release_push_token unregister_all
release w server a =
    let released = release_push_token a.local.push_token in
    let a' = unregister_all w server released.1 a in
    record a' { local = record (a'.local) { push_token = released.0 } }

-- A failed call of the server is ignored; `unregistering` and `leaving` are the server at the two
-- calls.
unfoldable pub sign_out : Works → Server → Server → Account → Account
unfolding release request clear
sign_out w unregistering leaving a =
    let a' = (request w leaving sign_out_call (release w unregistering a)).0 in
    record a' {
      local = record (a'.local) { device = clear w a'.local.device };
      cache_filled = false;
    }

pub data Ended : Type 0 where
  account_deleted apple_cancelled : Ended
  failed_with : Thrown → Ended

unfoldable pub drop_account : Works → Option String → Account → Account × Ended
unfolding clear_local_account_data
drop_account w owner a = (
  record a { local = clear_local_account_data w owner a.local; cache_filled = false },
  account_deleted,
)

-- DELETE /api/users/me
unfoldable pub delete_request : Works → Server → Option String → Account → Account × Ending
unfolding request
delete_request w server code a = request w server (delete_call code) a

abbrev pub second_answer : Works → Option String → Account → Ending → Account × Ended
unfolding drop_account
second_answer w owner a (parsed body) = drop_account w owner a
second_answer w owner a no_content = drop_account w owner a
second_answer w owner a (thrown e) = (a, failed_with e)

-- `code` is what Apple's sheet gave, none or empty if it was closed.
unfoldable pub after_apple :
    Works → Option String → Option String → Server → Account → Account × Ended
unfolding second_answer delete_request
after_apple w owner none second a = (a, apple_cancelled)
after_apple w owner (some code) second a =
    let r = delete_request w second (some code) a in
    if is_empty code then (a, apple_cancelled) else second_answer w owner r.0 r.1

unfoldable pub first_answer :
    Works → Option String → Option String → Server → Account → Ending → Account × Ended
unfolding drop_account after_apple
first_answer w owner code second a (parsed body) = drop_account w owner a
first_answer w owner code second a no_content = drop_account w owner a
first_answer w owner code second a (thrown e) =
    if is_text (api_error_code e) "apple_reauth_required"
    then after_apple w owner code second a
    else (a, failed_with e)

-- `subject` is tokenSubject, which decodes the access token; `first` and `second` are the server at
-- the first and at the second call.
unfoldable pub delete_account :
    (Option String → Option String)
    → Works
    → Server
    → Option String
    → Server
    → Account
    → Account × Ended
unfolding first_answer delete_request
delete_account subject w first code second a =
    let owner = subject a.local.device.session.access_token in
    let r = delete_request w first none a in first_answer w owner code second r.0 r.1

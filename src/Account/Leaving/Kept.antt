-- ===== src/Account/Leaving/Kept.antt =====
-- What deleting an account changes on the phone, and what it keeps.
use grocery_genie.Base.{
  nat_eq, string_eq, is_empty, String, ◌≡◌, refl, true, false, Option, none, some, List, ◌++◌, map,
  arith, if_cases,
}
use grocery_genie.Errors.{Thrown, api_error_code, is_text}
use grocery_genie.Auth.Client.{Server, Ending, parsed, no_content, thrown, api_client}
use grocery_genie.Auth.Client.Refresh.{Leaves, api_client-Leaves}
use grocery_genie.Auth.Store.{Works, Device}
use grocery_genie.Account.{clear_local_account_data}
use grocery_genie.Account.Leaving.{
  Call, delete_call, Account, request, Ended, account_deleted, apple_cancelled, failed_with,
  drop_account, delete_request, second_answer, after_apple, first_answer, delete_account,
}

-- A call to delete the account succeeded, at once or after the user confirmed with Apple, as the
-- two calls ended.
abbrev pub Confirmed : Ending → Option String → Ending → Type 0
Confirmed (parsed body) code second = Unit
Confirmed no_content code second = Unit
Confirmed (thrown e) none second = ⊥
Confirmed (thrown e) (some code) (thrown e') = ⊥
Confirmed (thrown e) (some code) second =
    (is_text (api_error_code e) "apple_reauth_required" ≡ true) × (is_empty code ≡ false)

-- The phone's session after the calls that were made, of which the second may not have been: each
-- leaves it as apiClient does.
pub data Called (w : Works) (first second : Server) (d : Device) (after : Device) : Type 0 where
  once : Leaves w first d after → Called w first second d after
  twice :
      (between : Device)
      → Leaves w first d between
      → Leaves w second between after
      → Called w first second d after

-- With the session as the calls left it, `d`: the account is gone with everything of its own, or
-- everything but the session is as it was.
abbrev pub LeftWith : Option String → Works → Account → Device → Account × Ended → Type 0 → Type 0
LeftWith owner w a d (a', account_deleted) confirmed =
    confirmed
    × (a'.local ≡ clear_local_account_data w owner (record (a.local) { device = d }))
    × (a'.cache_filled ≡ false)
LeftWith owner w a d (a', apple_cancelled) confirmed =
    ¬ confirmed × (a'.local ≡ record (a.local) { device = d }) × (a'.cache_filled ≡ a.cache_filled)
LeftWith owner w a d (a', failed_with e) confirmed =
    ¬ confirmed × (a'.local ≡ record (a.local) { device = d }) × (a'.cache_filled ≡ a.cache_filled)

abbrev pub IsAllOrNothing :
    Option String → Works → Server → Server → Account → Account × Ended → Type 0 → Type 0
IsAllOrNothing owner w first second a r confirmed =
    (d : Device) × Called w first second a.local.device d × LeftWith owner w a d r confirmed

-- The account while the calls are made: its session and the calls so far are new.
abbrev reached : Account → Device → List (Call × Option String) → Account
reached a d calls = record a { local = record (a.local) { device = d }; calls = calls }

second_answer-LeftWith :
    (w : Works) (owner : Option String) (e : Thrown) (code : String) (ending : Ending) (a : Account)
    (d : Device) (calls : List (Call × Option String))
    → is_text (api_error_code e) "apple_reauth_required" ≡ true
    → is_empty code ≡ false
    → LeftWith owner w a d
        (second_answer w owner (reached a d calls) ending)
        (Confirmed (thrown e) (some code) ending)
unfolding second_answer drop_account
second_answer-LeftWith w owner e code (parsed body) a d calls apple given =
    ((apple, given), refl, refl)
second_answer-LeftWith w owner e code no_content a d calls apple given =
    ((apple, given), refl, refl)
second_answer-LeftWith w owner e code (thrown e') a d calls apple given = ((λ h. h), refl, refl)

closed-Confirmed :
    (e : Thrown) (code : String) (ending : Ending)
    → is_empty code ≡ true
    → ¬ (Confirmed (thrown e) (some code) ending)
closed-Confirmed e code (parsed body) closed h = ground (arith, h.1, closed)
closed-Confirmed e code no_content closed h = ground (arith, h.1, closed)
closed-Confirmed e code (thrown e') closed h = h

other-Confirmed :
    (e : Thrown) (code : Option String) (ending : Ending)
    → is_text (api_error_code e) "apple_reauth_required" ≡ false
    → ¬ (Confirmed (thrown e) code ending)
other-Confirmed e none ending other h = h
other-Confirmed e (some code) (parsed body) other h = ground (arith, h.0, other)
other-Confirmed e (some code) no_content other h = ground (arith, h.0, other)
other-Confirmed e (some code) (thrown e') other h = h

module _ (w : Works) (first second : Server) (owner : Option String) (a : Account) (d : Device)
    (calls : List (Call × Option String)) where
  abbrev second_ending : Ending
  unfolding delete_request request
  second_ending = (api_client w second false d).ending

  after_apple-IsAllOrNothing :
      (e : Thrown) (code : Option String)
      → Leaves w first a.local.device d
      → is_text (api_error_code e) "apple_reauth_required" ≡ true
      → IsAllOrNothing owner w first second a
          (after_apple w owner code second (reached a d calls))
          (Confirmed (thrown e) code second_ending)
  unfolding after_apple delete_request request
  after_apple-IsAllOrNothing e none left apple = (d, once left, ((λ h. h), refl, refl))
  after_apple-IsAllOrNothing e (some code) left apple =
      if_cases (is_empty code)
        (λ r.
          IsAllOrNothing owner w first second a r (Confirmed (thrown e) (some code) second_ending))
        (λ closed. (d, once left, (closed-Confirmed e code second_ending closed, refl, refl)))
        (λ given. (
          (api_client w second false d).device,
          twice d left (api_client-Leaves w second d),
          second_answer-LeftWith w owner e code second_ending a (api_client w second false d).device
              _ apple given,
        ))

  first_answer-IsAllOrNothing :
      (code : Option String) (ending : Ending)
      → Leaves w first a.local.device d
      → IsAllOrNothing owner w first second a
          (first_answer w owner code second (reached a d calls) ending)
          (Confirmed ending code second_ending)
  unfolding first_answer drop_account
  first_answer-IsAllOrNothing code (parsed body) left = (d, once left, (tt, refl, refl))
  first_answer-IsAllOrNothing code no_content left = (d, once left, (tt, refl, refl))
  first_answer-IsAllOrNothing code (thrown e) left =
      if_cases (is_text (api_error_code e) "apple_reauth_required")
        (λ r. IsAllOrNothing owner w first second a r (Confirmed (thrown e) code second_ending))
        (λ apple. after_apple-IsAllOrNothing e code left apple)
        (λ other. (d, once left, (other-Confirmed e code second_ending other, refl, refl)))

-- Deleting the account is all or nothing, however the server and Apple answer: it ends as deleted
-- if and only if a call to delete it succeeds, the first one or, after Apple, the second; then the
-- phone has dropped the account of the owner of the token before the calls as
-- clear_local_account_data does, and the query cache. Otherwise the phone and the cache are as they
-- were, but for the session, which each call leaves as apiClient does: cleared or given new tokens
-- only after a 401.
pub delete_account-IsAllOrNothing :
    (subject : Option String → Option String) (w : Works) (first : Server) (code : Option String)
    (second : Server) (a : Account)
    → let called = api_client w first false a.local.device in
      IsAllOrNothing
        (subject a.local.device.session.access_token)
        w
        first
        second
        a
        (delete_account subject w first code second a)
        (Confirmed called.ending code (api_client w second false called.device).ending)
unfolding delete_account delete_request request
delete_account-IsAllOrNothing subject w first code second a =
    let called = api_client w first false a.local.device in
    first_answer-IsAllOrNothing w first second (subject a.local.device.session.access_token) a
      called.device (a.calls ++ map (λ token. (delete_call none, token)) called.sent) code
      called.ending (api_client-Leaves w first a.local.device)

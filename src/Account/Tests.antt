-- ===== src/Account/Tests.antt =====
-- Deletions of the data and of the account on a small example.
use grocery_genie.Base.{
  nat_eq, string_eq, String, ◌≡◌, refl, ◌≢◌, true, false, Option, none, some, [], ◌∷◌, ◌++◌, map,
  arith, eq_iff, All,
}
use grocery_genie.Errors.{coded, api_error_code}
use grocery_genie.Queue.{PendingReceipt, pending}
use grocery_genie.Queue.Store.{entry}
use grocery_genie.Auth.Store.{initial, clear}
use grocery_genie.Auth.Store.Restart.{all_work}
use grocery_genie.Auth.Client.{after_401, refresh_tokens, conclude, denied, Server, api_client}
use grocery_genie.Account.{initial_preferences, Local, owned_by, clear_local_account_data}
use grocery_genie.Account.Deletion.{SignedOut, IsReset, clear_local_account_data-Forgets}
use grocery_genie.Account.Leaving as Leaving
use grocery_genie.Auth.Client as Client
use grocery_genie.Account.Leaving.{Account, request, delete_request, delete_account}
use grocery_genie.Account.Leaving.Kept.{Confirmed, IsAllOrNothing, delete_account-IsAllOrNothing}

abbrev photo : String → String → PendingReceipt
photo i owner = record {
  id = i;
  image_uri = i;
  mime_type = "image/jpeg";
  captured_at = "2026-01-02T10:00:00Z";
  owner_id = owner;
  source = none;
  status = pending;
  last_attempt_failed = false;
  failure = none;
  needs_consent = false;
}

abbrev shared : Local
shared = record {
  queue = photo "p1" "ann" ∷ photo "p2" "bob" ∷ photo "p3" "ann" ∷ [];
  deleted = [];
  preferences = record initial_preferences { weekly_summary_day = 3 };
  push_token = some "t";
  receipts = record {
    pending_ids = [];
    captured_image_uri = some "p2";
    active_scan_response = some "r1";
  };
  device = record {
    session = record initial { access_token = some "a1"; refresh_token = some "r1" };
    keychain = record {
      access = some "a1";
      refresh = some "r1";
      user = some "ann";
      first_run = none;
    };
  };
}

clear_local_account_data-Forgets_example :
    let l' = clear_local_account_data all_work (some "ann") shared in
    All (λ r. r.owner_id ≢ "ann") l'.queue
    × (l'.deleted ≡ [] ++ map (λ r. r.image_uri) (owned_by "ann" shared.queue))
    × (entry "p2" l'.queue ≡ entry "p2" shared.queue)
    × (l'.push_token ≡ none)
    × (l'.preferences ≡ initial_preferences)
    × SignedOut l'.device
    × IsReset l'.receipts
clear_local_account_data-Forgets_example =
    clear_local_account_data-Forgets "ann" "p2" shared refl
      (unfold owned_by in ground (arith, eq_iff "p1" "p2", eq_iff "p3" "p2"))

abbrev account : Account
account = record { local = shared; calls = []; cache_filled = true; invalidated = [] }

-- Apple has to confirm: the first call is answered 403, the second 204.
abbrev asks_apple : Server
asks_apple = record {
  answer = λ n token. some (record {
    status = 403;
    body = none;
    error_body = some (record { detail = coded "apple_reauth_required"; code = none });
  });
  refresh = λ t. denied;
}

abbrev deletes : Server
deletes = record {
  answer = λ n token. some (record { status = 204; body = none; error_body = none });
  refresh = λ t. denied;
}

abbrev ann : Option String → Option String
ann token = some "ann"

delete_account-IsAllOrNothing_example :
    let called = api_client all_work asks_apple false account.local.device in
    IsAllOrNothing
      (some "ann")
      all_work
      asks_apple
      deletes
      account
      (delete_account ann all_work asks_apple (some "apple-code") deletes account)
      (Confirmed called.ending
        (some "apple-code")
        (api_client all_work deletes false called.device).ending)
delete_account-IsAllOrNothing_example =
    delete_account-IsAllOrNothing ann all_work asks_apple (some "apple-code") deletes account

abbrev expired : Server
expired = record {
  answer = λ n token. some (record { status = 401; body = none; error_body = none });
  refresh = λ t. denied;
}

-- A deletion that fails for want of a session signs the user out and keeps all else.
signs_out :
    let a = (delete_account ann all_work expired none deletes account).0 in
    (a.local.device.session.access_token ≡ none) × (a.local.queue ≡ account.local.queue)
unfolding delete_account delete_request request Leaving.first_answer api_client Client.first_answer
    after_401 refresh_tokens clear conclude api_error_code
signs_out = (refl, refl)

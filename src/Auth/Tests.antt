-- ===== src/Auth/Tests.antt =====
-- Sessions, requests and taps on small examples.
use grocery_genie.Base.{
  nat_eq, string_eq, ℕ, zero, suc, String, ◌≡◌, refl, true, false, Option, none, some, List, [],
  ◌∷◌,
}
use grocery_genie.Auth.Store.{Session, Device, initial, set_session}
use grocery_genie.Auth.Store.Restart.{all_work}
use grocery_genie.Auth.Client.{Response, TokenPair, renewed, Server, api_client}
use grocery_genie.Auth.Client.Refresh.{Leaves, api_client-Leaves}
use grocery_genie.Auth.Taps.{Tap, Event, arrived, captured, opened_next, session_is, run}
use grocery_genie.Auth.Taps.Once.{Inv, launch, run-launch-Inv}
use grocery_genie.Auth.Sharing as Sharing
use grocery_genie.Auth.Sharing.Answered as Answered

abbrev session : Option String → Option String → Session
session access user = record {
  access_token = access;
  refresh_token = some "r1";
  user_id = user;
  first_run_completed = true;
  hydrated = true;
}

abbrev device : Device
device = record {
  session = session (some "a1") (some "ann");
  keychain = record {
    access = some "a1";
    refresh = some "r1";
    user = some "ann";
    first_run = some "1";
  };
}

abbrev expired : Response
expired = record { status = 401; body = none; error_body = none }

abbrev fine : Response
fine = record { status = 200; body = some "{}"; error_body = none }

abbrev pair : TokenPair
pair = record { access_token = "a2"; refresh_token = "r2" }

abbrev answer_of : ℕ → Option String → Option Response
answer_of zero t = some expired
answer_of (suc n) t = some fine

abbrev server : Server
server = record { answer = answer_of; refresh = λ t. renewed pair }

api_client-Leaves_example :
    Leaves all_work server device (api_client all_work server false device).device
api_client-Leaves_example = api_client-Leaves all_work server device

abbrev tap : Tap
tap = record {
  id = "t1";
  opens = true;
  content = record {
    notification_id = some "n1";
    type = some "price_change";
    canonical_item_id = some "1b-2c";
    url = none;
  };
}

abbrev morning : List Event
morning =
    captured
    ∷ arrived tap
    ∷ session_is (session (some "a1") none)
    ∷ opened_next
    ∷ captured
    ∷ opened_next
    ∷ session_is (session none none)
    ∷ []

run-launch-Inv_example : Inv (run true morning (launch (some tap) initial))
run-launch-Inv_example = run-launch-Inv true (some tap) initial morning

-- Two requests share a refresh; the user signs out before its answer comes.
abbrev overtaken : List Sharing.Event
overtaken =
    Sharing.unauthorized
    ∷ Sharing.unauthorized
    ∷ Sharing.signs_off
    ∷ Sharing.refreshed (renewed pair)
    ∷ []

sign_out_undone :
    (Sharing.run all_work overtaken (Sharing.idle device)).device.session.access_token ≡ some "a2"
unfolding Sharing.run Sharing.step set_session
sign_out_undone = refl

run-idle-Inv_example : Answered.Inv (Sharing.run all_work overtaken (Sharing.idle device))
run-idle-Inv_example = Answered.run-idle-Inv all_work device overtaken

-- ===== src/Auth/Sharing.antt =====
-- How requests share one token refresh: getOrRefreshToken and `inFlightRefresh` of
-- mobile/src/services/api.ts, over any order of the requests that meet a 401, the end of the
-- refresh, sign-ins and sign-outs. Requests are numbered in the order in which they meet their 401.
pub mod Answered
use grocery_genie.Base.{
  Eq, nat_eq, string_eq, option_beq, option_beq_iff, changed, trim, is_empty, ℕ, zero, suc, ◌+◌,
  ◌-◌, ◌*◌, ◌/◌, ◌%◌, ◌≤◌, ◌<◌, String, ◌≡◌, refl, sym, ap, subst, ◌∙◌, ◌≢◌, ◌↔◌, ◌⊎◌, inl, inr,
  Bool, true, false, not, ◌&&◌, ◌||◌, Option, none, some, List, [], ◌∷◌, ◌++◌, map, append-nil,
  append_assoc, map-append, arith, str_eq, eq_iff, eq_refl, ltb, leb, ◌==◌, if◌then◌else◌, ltb→lt,
  leb→le, ==_iff, Bool-cases, if_cases, Option-cases, or_else, is_some, length, select, find, any,
  take, drop, All, length-append, All-append, All-map, All-select, All-select_of, length-take-le,
  select-append,
}
use grocery_genie.Auth.Store.{Works, Device, set_session, clear}
use grocery_genie.Auth.Client.{TokenPair, RefreshAnswer, lost, denied, renewed}

-- How a waiting request goes on: it is sent again, it signs the user out, or it throws.
pub data Outcome : Type 0 where
  sent_again signed_out threw : Outcome

-- `refreshing` is `inFlightRefresh !== null`; `waiting` holds the requests that await it; `posted`
-- holds the refresh tokens sent to the server, newest first, and `ended` the refreshes that are
-- over.
pub record Requests : Type 0 where
  pub device : Device
  pub refreshing : Bool
  pub waiting : List ℕ
  pub met : ℕ
  pub outcomes : List (ℕ × Outcome)
  pub posted : List String
  pub started : ℕ
  pub ended : ℕ

-- The refresh token that a refresh sends: none if there is none or it is empty.
abbrev pub token_to_post : Option String → List String
token_to_post none = []
token_to_post (some t) = if str_eq t "" then [] else t ∷ []

-- getOrRefreshToken, called by the next request that met a 401.
unfoldable pub join_refresh : Requests → Requests
join_refresh s =
    if s.refreshing then record s { waiting = s.met ∷ s.waiting; met = suc s.met } else record s {
      refreshing = true;
      waiting = s.met ∷ s.waiting;
      met = suc s.met;
      posted = token_to_post s.device.session.refresh_token ++ s.posted;
      started = suc s.started;
    }

abbrev pub ending_with : Outcome → List ℕ → List (ℕ × Outcome)
ending_with o [] = []
ending_with o (n ∷ ns) = (n, o) ∷ ending_with o ns

abbrev pub signs_out : Works → List ℕ → Device → Device
signs_out w [] d = d
signs_out w (n ∷ ns) d = clear w d

-- The requests that waited go on.
abbrev pub release : Outcome → Device → Requests → Requests
release o d s = record s {
  device = d;
  refreshing = false;
  waiting = [];
  outcomes = ending_with o s.waiting ++ s.outcomes;
  ended = suc s.ended;
}

-- The refresh is over. Without a token, and with an empty one, the requests sign the user out.
unfoldable pub end_refresh : Works → RefreshAnswer → Requests → Requests
end_refresh w lost s = release threw s.device s
end_refresh w denied s = release signed_out (signs_out w s.waiting s.device) s
end_refresh w (renewed p) s =
    let d = set_session w p.access_token p.refresh_token none s.device in
    if str_eq p.access_token ""
    then release signed_out (signs_out w s.waiting d) s
    else release sent_again d s

pub data Event : Type 0 where
  unauthorized : Event
  refreshed : RefreshAnswer → Event
  signs_in : TokenPair → Event
  signs_off : Event

unfoldable pub step : Works → Event → Requests → Requests
unfolding join_refresh end_refresh
step w unauthorized s = join_refresh s
step w (refreshed a) s = if s.refreshing then end_refresh w a s else s
step w (signs_in p) s = record s {
  device = set_session w p.access_token p.refresh_token none s.device;
}
step w signs_off s = record s { device = clear w s.device }

unfoldable pub run : Works → List Event → Requests → Requests
run w [] s = s
run w (e ∷ es) s = run w es (step w e s)

abbrev pub idle : Device → Requests
idle d = record {
  device = d;
  refreshing = false;
  waiting = [];
  met = 0;
  outcomes = [];
  posted = [];
  started = 0;
  ended = 0;
}

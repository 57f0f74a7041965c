-- ===== src/Auth/Store.antt =====
-- The signed-in session: mobile/src/store/authStore.ts. A call of the keychain (SecureStore) may
-- throw, which the code swallows; the flags of `Works` say which calls succeed.
pub mod Restart
use grocery_genie.Base.{
  ℕ, zero, suc, ◌+◌, ◌-◌, ◌*◌, ◌/◌, ◌%◌, ◌≤◌, ◌<◌, String, ◌≡◌, refl, sym, ap, subst, ◌∙◌, ◌≢◌, ◌↔◌,
  ◌⊎◌, inl, inr, Bool, true, false, not, ◌&&◌, ◌||◌, Option, none, some, List, [], ◌∷◌, ◌++◌, map,
  append-nil, append_assoc, map-append, arith, str_eq, eq_iff, eq_refl, ltb, leb, ◌==◌,
  if◌then◌else◌, ltb→lt, leb→le, ==_iff, Bool-cases, Option-cases, or_else, is_some, length, select,
  find, any, take, drop, All, length-append, All-append, All-map, All-select, All-select_of,
  length-take-le, select-append,
}

pub record Session : Type 0 where
  pub access_token : Option String
  pub refresh_token : Option String
  pub user_id : Option String
  pub first_run_completed : Bool
  pub hydrated : Bool

-- What is stored under KEY_ACCESS, KEY_REFRESH, KEY_USER_ID and KEY_FIRST_RUN.
pub record Keychain : Type 0 where
  pub access : Option String
  pub refresh : Option String
  pub user : Option String
  pub first_run : Option String

pub record Works : Type 0 where
  pub access : Bool
  pub refresh : Bool
  pub user : Bool
  pub first_run : Bool

pub record Device : Type 0 where
  pub session : Session
  pub keychain : Keychain

abbrev pub safe_get : Bool → Option String → Option String
safe_get works stored = if works then stored else none

abbrev pub safe_set : Bool → String → Option String → Option String
safe_set works value stored = if works then some value else stored

abbrev pub safe_delete : Bool → Option String → Option String
safe_delete works stored = if works then none else stored

abbrev pub initial : Session
initial = record {
  access_token = none;
  refresh_token = none;
  user_id = none;
  first_run_completed = false;
  hydrated = false;
}

abbrev pub is_one : Option String → Bool
is_one none = false
is_one (some s) = str_eq s "1"

unfoldable pub hydrate : Works → Device → Device
hydrate w d = record d {
  session = record {
    access_token = safe_get w.access d.keychain.access;
    refresh_token = safe_get w.refresh d.keychain.refresh;
    user_id = safe_get w.user d.keychain.user;
    first_run_completed = is_one (safe_get w.first_run d.keychain.first_run);
    hydrated = true;
  };
}

-- `userId ? safeSet(KEY_USER_ID, userId) : …`
abbrev pub set_user : Bool → Option String → Option String → Option String
set_user works none stored = stored
set_user works (some u) stored = if str_eq u "" then stored else safe_set works u stored

unfoldable pub set_session : Works → String → String → Option String → Device → Device
set_session w access_token refresh_token user_id d = record {
  session = record (d.session) {
    access_token = some access_token;
    refresh_token = some refresh_token;
    user_id = user_id;
  };
  keychain = record (d.keychain) {
    access = safe_set w.access access_token d.keychain.access;
    refresh = safe_set w.refresh refresh_token d.keychain.refresh;
    user = set_user w.user user_id d.keychain.user;
  };
}

unfoldable pub set_access_token : Works → String → Device → Device
set_access_token w token d = record {
  session = record (d.session) { access_token = some token };
  keychain = record (d.keychain) { access = safe_set w.access token d.keychain.access };
}

unfoldable pub clear : Works → Device → Device
clear w d = record {
  session = record (d.session) { access_token = none; refresh_token = none; user_id = none };
  keychain = record (d.keychain) {
    access = safe_delete w.access d.keychain.access;
    refresh = safe_delete w.refresh d.keychain.refresh;
    user = safe_delete w.user d.keychain.user;
  };
}

unfoldable pub mark_first_run_completed : Works → Device → Device
mark_first_run_completed w d = record {
  session = record (d.session) { first_run_completed = true };
  keychain = record (d.keychain) { first_run = safe_set w.first_run "1" d.keychain.first_run };
}

-- The app is closed and opened again.
unfoldable pub restart : Works → Device → Device
unfolding hydrate
restart w d = hydrate w (record d { session = initial })

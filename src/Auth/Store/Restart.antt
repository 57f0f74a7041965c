-- ===== src/Auth/Store/Restart.antt =====
-- What a restart of the app finds of the session.
use grocery_genie.Base.{String, ◌≡◌, ◌⊎◌, true, false, Option, none, some, arith, str_eq}
use grocery_genie.Auth.Store.{Works, Device, set_session, clear, mark_first_run_completed, restart}

abbrev pub all_work : Works
all_work = record { access = true; refresh = true; user = true; first_run = true }

-- With a keychain that works, a session that was set with a user id that is not empty is found
-- again after a restart with both tokens and that id, a cleared session is found signed out, and
-- the first-run mark stays through both.
restart_finds :
    (access refresh user : String) (d : Device)
    → str_eq user "" ≡ false
    → let set = restart all_work (set_session all_work access refresh (some user) d) in
      let cleared = restart all_work (clear all_work (mark_first_run_completed all_work d)) in
      (set.session.access_token ≡ some access)
      × (set.session.refresh_token ≡ some refresh)
      × (set.session.user_id ≡ some user)
      × (set.session.hydrated ≡ true)
      × (cleared.session.access_token ≡ none)
      × (cleared.session.refresh_token ≡ none)
      × (cleared.session.user_id ≡ none)
      × (cleared.session.first_run_completed ≡ true)
unfolding restart set_session clear mark_first_run_completed
restart_finds access refresh user d named = ground arith

-- When keychain calls fail, a restart still never shows a token that was neither set nor stored:
-- each token found is the new one, the stored one, or none.
restart_finds_stored :
    (w v : Works) (access refresh : String) (user : Option String) (d : Device)
    → let s = (restart v (set_session w access refresh user d)).session in
      ((s.access_token ≡ some access)
        ⊎ (s.access_token ≡ d.keychain.access)
        ⊎ (s.access_token ≡ none))
      × ((s.refresh_token ≡ some refresh)
          ⊎ (s.refresh_token ≡ d.keychain.refresh)
          ⊎ (s.refresh_token ≡ none))
unfolding restart set_session
restart_finds_stored w v access refresh user d = ground arith

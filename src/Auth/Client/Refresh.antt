-- ===== src/Auth/Client/Refresh.antt =====
-- What a request does to the session.
use grocery_genie.Base.{
  ◌≤◌, String, ◌≡◌, refl, ◌⊎◌, inl, inr, Bool, true, false, Option, none, some, List, [], ◌∷◌,
  arith, str_eq, eq_iff, ◌==◌, ==_iff, Bool-cases, length,
}
use grocery_genie.Auth.Store.{Works, Device, set_session, clear}
use grocery_genie.Auth.Client.{
  Response, TokenPair, RefreshAnswer, lost, denied, renewed, Server, conclude, settle, Refreshed,
  failed, no_token, token, store_pair, refresh_with, refresh_tokens, token_of, after_401,
  first_answer, api_client,
}

after_401-sent :
    (w : Works) (s : Server) (d : Device) (r : Response) (f : Refreshed)
    → length (after_401 w s d r f).sent ≤ 2
unfolding after_401
after_401-sent w s d r failed = omega arith
after_401-sent w s d r no_token = omega arith
after_401-sent w s d r (token t d') = ground arith

first_answer-sent :
    (w : Works) (s : Server) (skip_auth : Bool) (d : Device) (o : Option Response)
    → (length (first_answer w s skip_auth d o).sent ≤ 2)
      × (length (first_answer w s true d o).sent ≡ 1)
      × ((first_answer w s true d o).device ≡ d)
unfolding first_answer
first_answer-sent w s skip_auth d none = ground arith
first_answer-sent w s skip_auth d (some r) =
    ground (arith, after_401-sent w s d r (refresh_tokens w s d))

-- A call sends its request at most twice; with `skipAuth` it sends it once and leaves the session
-- alone.
api_client-sent :
    (w : Works) (s : Server) (skip_auth : Bool) (d : Device)
    → (length (api_client w s skip_auth d).sent ≤ 2)
      × (length (api_client w s true d).sent ≡ 1)
      × ((api_client w s true d).device ≡ d)
unfolding api_client
api_client-sent w s skip_auth d =
    let any = first_answer-sent w s skip_auth d (s.answer 0 (token_of skip_auth d)) in
    let bare = first_answer-sent w s true d (s.answer 0 (token_of true d)) in
    (any.0, bare.1, bare.2)

-- The first answer was a 401.
abbrev pub Unauthorized : Server → Device → Type 0
Unauthorized s d = (r : Response) × (s.answer 0 (token_of false d) ≡ some r) × (r.status ≡ 401)

-- The server renewed the session's refresh token.
abbrev pub Renews : Server → Device → TokenPair → Type 0
Renews s d p = (t : String) × (d.session.refresh_token ≡ some t) × (s.refresh t ≡ renewed p)

abbrev pub with_pair : Works → Device → TokenPair → Device
with_pair w d p = set_session w p.access_token p.refresh_token none d

-- How a call may leave the session: as it was; after a 401, cleared; or, after a 401 that the
-- server mended, with its new pair of tokens, which is cleared at once if its access token is
-- empty.
pub data Leaves (w : Works) (s : Server) (d : Device) (after : Device) : Type 0 where
  as_it_was : after ≡ d → Leaves w s d after
  cleared : Unauthorized s d → after ≡ clear w d → Leaves w s d after
  given_tokens :
      Unauthorized s d
      → (p : TokenPair) → Renews s d p
      → (after ≡ with_pair w d p) ⊎ ((p.access_token ≡ "") × (after ≡ clear w (with_pair w d p)))
      → Leaves w s d after

settle-device :
    (d : Device) (sent : List (Option String)) (o : Option Response) → (settle d sent o).device ≡ d
settle-device d sent none = refl
settle-device d sent (some r) = refl

after_401-Leaves :
    (w : Works) (s : Server) (d : Device) (r : Response)
    → Unauthorized s d
    → (t : String) → d.session.refresh_token ≡ some t
    → (a : RefreshAnswer) → s.refresh t ≡ a
    → Leaves w s d (after_401 w s d r (store_pair w d a)).device
unfolding after_401
after_401-Leaves w s d r un t has lost e = as_it_was refl
after_401-Leaves w s d r un t has denied e = cleared un refl
after_401-Leaves w s d r un t has (renewed p) e = elim (Bool-cases (str_eq p.access_token "")) [
  | inl empty ↦ given_tokens un p (t, has, e) (inr ((eq_iff _ _).0 empty, rw empty refl))
  | inr named ↦ given_tokens un p (t, has, e) (inl (rw named (settle-device _ _ _)))
]

refresh-Leaves :
    (w : Works) (s : Server) (d : Device) (r : Response)
    → Unauthorized s d
    → (o : Option String) → d.session.refresh_token ≡ o
    → Leaves w s d (after_401 w s d r (refresh_with w s d o)).device
refresh-Leaves w s d r un none has = unfold after_401 in cleared un refl
refresh-Leaves w s d r un (some t) has = elim (Bool-cases (str_eq t "")) [
  | inl empty ↦ rw empty (unfold after_401 in cleared un refl)
  | inr named ↦ rw named (after_401-Leaves w s d r un t has (s.refresh t) refl)
]

first_answer-Leaves :
    (w : Works) (s : Server) (d : Device) (o : Option Response)
    → s.answer 0 (token_of false d) ≡ o
    → Leaves w s d (first_answer w s false d o).device
unfolding first_answer
first_answer-Leaves w s d none e = as_it_was refl
first_answer-Leaves w s d (some r) e = elim (Bool-cases (r.status == 401)) [
  | inl no_entry ↦
      rw no_entry
        (refresh-Leaves w s d r (r, e, (==_iff _ _).0 no_entry) d.session.refresh_token refl)
  | inr fine ↦ rw fine (as_it_was refl)
]

-- A call signs the user out only after a 401, and changes the tokens only to a pair with which the
-- server renewed the session's own refresh token; otherwise it leaves session and keychain alone.
pub api_client-Leaves :
    (w : Works) (s : Server) (d : Device) → Leaves w s d (api_client w s false d).device
unfolding api_client
api_client-Leaves w s d = first_answer-Leaves w s d (s.answer 0 (token_of false d)) refl

-- After a 401 that a refresh mends, the call is sent again with the new token, ends as that second
-- answer does, and the new tokens are the session's; but the session's user id is then unknown,
-- while the keychain still holds the old one.
api_client_refreshed :
    (w : Works) (s : Server) (d : Device) (first second : Response) (t : String) (p : TokenPair)
    → s.answer 0 (token_of false d) ≡ some first
    → first.status ≡ 401
    → d.session.refresh_token ≡ some t
    → str_eq t "" ≡ false
    → s.refresh t ≡ renewed p
    → str_eq p.access_token "" ≡ false
    → s.answer 1 (some p.access_token) ≡ some second
    → let call = api_client w s false d in
      (call.ending ≡ conclude second)
      × (call.sent ≡ token_of false d ∷ some p.access_token ∷ [])
      × (call.device.session.access_token ≡ some p.access_token)
      × (call.device.session.refresh_token ≡ some p.refresh_token)
      × (call.device.session.user_id ≡ none)
      × (call.device.keychain.user ≡ d.keychain.user)
unfolding api_client first_answer after_401 refresh_tokens set_session
api_client_refreshed w s d first second t p a u has named renews new again = ground arith

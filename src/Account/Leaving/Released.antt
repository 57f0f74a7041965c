-- ===== src/Account/Leaving/Released.antt =====
-- What signing out changes on the phone, and what it keeps.
use grocery_genie.Base.{
  nat_eq, string_eq, String, ◌≡◌, refl, sym, ap, ◌∙◌, ◌⊎◌, inl, false, Option, none, some, List, [],
  ◌∷◌, ◌++◌, map, append-nil, append_assoc, arith, eq_iff, All, All-append,
}
use grocery_genie.Auth.Client.{Server, api_client}
use grocery_genie.Auth.Store.{Works, clear}
use grocery_genie.Auth.Store.Restart.{all_work}
use grocery_genie.Account.Push.{release_push_token}
use grocery_genie.Account.Deletion.{SignedOut}
use grocery_genie.Account.Leaving.{
  Call, unregister, sign_out_call, delete_call, Account, request, unregister_all, release, sign_out,
}

unregister_all-local :
    (w : Works) (server : Server) (ts : List String) (a : Account)
    → let a' = unregister_all w server ts a in
      a'.local ≡ record (a.local) { device = a'.local.device }
unfolding unregister_all request
unregister_all-local w server [] a = refl
unregister_all-local w server (t ∷ ts) a =
    unregister_all-local w server ts (request w server (unregister t) a).0

abbrev IsUnregister : Call × Option String → Type 0
IsUnregister (unregister t, token) = Unit
IsUnregister (sign_out_call, token) = ⊥
IsUnregister (delete_call code, token) = ⊥

unregister_all-calls :
    (w : Works) (server : Server) (ts : List String) (a : Account)
    → (requests : List (Call × Option String)) × ((unregister_all w server ts a).calls
        ≡ a.calls ++ requests)
      × All IsUnregister requests
unfolding unregister_all request
unregister_all-calls w server [] a = ([], sym (append-nil a.calls), tt)
unregister_all-calls w server (t ∷ ts) a =
    let made =
      map (λ token. (unregister t, token)) (api_client w server false a.local.device).sent in
    let later = unregister_all-calls w server ts (request w server (unregister t) a).0 in
    (
      made ++ later.0,
      later.1 ∙ append_assoc a.calls made later.0,
      All-append IsUnregister made later.0 (tagged _) later.2,
    )
  where
    tagged :
        (sent : List (Option String)) → All IsUnregister (map (λ token. (unregister t, token)) sent)
    tagged [] = tt
    tagged (x ∷ xs) = (tt, tagged xs)

token_gone :
    (token : Option String)
    → let kept = (release_push_token token).0 in (kept ≡ none) ⊎ (kept ≡ some "")
unfolding release_push_token
token_gone none = inl refl
token_gone (some t) = ground (arith, eq_iff t "")

-- Signing out gives the push token back before it tells the server, whatever the two calls answer
-- and do to the session; after it this phone has no push token, nobody is signed in if the keychain
-- works, and the queued photos are all kept.
sign_out-Releases :
    (unregistering leaving : Server) (a : Account)
    → let a' = sign_out all_work unregistering leaving a in
      ((requests : List (Call × Option String)) × (sent : List (Option String)) × (a'.calls
          ≡ (a.calls ++ requests) ++ map (λ token. (sign_out_call, token)) sent)
        × All IsUnregister requests)
      × ((a'.local.push_token ≡ none) ⊎ (a'.local.push_token ≡ some ""))
      × SignedOut a'.local.device
      × (a'.local.queue ≡ a.local.queue)
unfolding sign_out release request clear
sign_out-Releases unregistering leaving a =
    let ts = (release_push_token a.local.push_token).1 in
    let sent =
      (api_client all_work leaving false (release all_work unregistering a).local.device).sent in
    let first = unregister_all-calls all_work unregistering ts a in
    (
      (
        first.0,
        sent,
        ap (λ calls. calls ++ map (λ token. (sign_out_call, token)) sent) first.1,
        first.2,
      ),
      token_gone a.local.push_token,
      (refl, refl, refl, refl, refl, refl),
      ap (λ l. l.queue) (unregister_all-local all_work unregistering ts a),
    )

-- ===== src/Auth/Sharing/Answered.antt =====
-- One refresh at a time, and every request goes on once.
use grocery_genie.Base.{
  nat_eq, string_eq, ℕ, suc, ◌+◌, ◌≤◌, String, ◌≡◌, refl, ◌⊎◌, inl, inr, true, Option, none, some,
  List, [], ◌∷◌, ◌++◌, arith, str_eq, ltb, ◌==◌, if◌then◌else◌, if_cases, length,
}
use grocery_genie.Auth.Store.{Works, Device}
use grocery_genie.Auth.Client.{RefreshAnswer, lost, denied, renewed}
use grocery_genie.Auth.Sharing.{
  Outcome, sent_again, signed_out, threw, Requests, token_to_post, join_refresh, ending_with,
  release, end_refresh, Event, unauthorized, refreshed, signs_in, signs_off, step, run, idle,
}

-- How often a request waits, and how often it went on.
abbrev pub waits : ℕ → List ℕ → ℕ
waits k [] = 0
waits k (n ∷ ns) = (if n == k then 1 else 0) + waits k ns

abbrev pub goes_on : ℕ → List (ℕ × Outcome) → ℕ
goes_on k [] = 0
goes_on k ((n, o) ∷ os) = (if n == k then 1 else 0) + goes_on k os

pub record Inv (s : Requests) : Type 0 where
  pub once : (k : ℕ) → waits k s.waiting + goes_on k s.outcomes ≡ (if ltb k s.met then 1 else 0)
  pub one_refresh : s.started ≡ s.ended + (if s.refreshing then 1 else 0)
  pub posts : length s.posted ≤ s.started
  pub nobody_waits : (s.refreshing ≡ true) ⊎ (s.waiting ≡ [])

goes_on-ending_with :
    (k : ℕ) (o : Outcome) (ns : List ℕ) (os : List (ℕ × Outcome))
    → goes_on k (ending_with o ns ++ os) ≡ waits k ns + goes_on k os
goes_on-ending_with k o [] os = omega arith
goes_on-ending_with k o (n ∷ ns) os = omega (arith, goes_on-ending_with k o ns os)

length-token_to_post :
    (o : Option String) (ts : List String) → length (token_to_post o ++ ts) ≤ suc (length ts)
length-token_to_post none ts = omega arith
length-token_to_post (some t) ts =
    if_cases (str_eq t "") (λ xs. length (xs ++ ts) ≤ suc (length ts)) (λ e. omega arith)
      (λ e. omega arith)

join_refresh-Inv : (s : Requests) → Inv s → Inv (join_refresh s)
unfolding join_refresh
join_refresh-Inv s v =
    if_cases s.refreshing Inv
      (λ on. record {
        once = λ k. ground (arith, v.once k);
        one_refresh = v.one_refresh;
        posts = v.posts;
        nobody_waits = inl on;
      })
      (λ off. record {
        once = λ k. ground (arith, v.once k);
        one_refresh = ground (arith, v.one_refresh);
        posts =
            omega (arith, length-token_to_post s.device.session.refresh_token s.posted, v.posts);
        nobody_waits = inl refl;
      })

release-Inv :
    (o : Outcome) (d : Device) (s : Requests) → s.refreshing ≡ true → Inv s → Inv (release o d s)
release-Inv o d s on v = record {
  once = λ k. omega (arith, goes_on-ending_with k o s.waiting s.outcomes, v.once k);
  one_refresh = ground (arith, v.one_refresh);
  posts = v.posts;
  nobody_waits = inr refl;
}

end_refresh-Inv :
    (w : Works) (a : RefreshAnswer) (s : Requests)
    → s.refreshing ≡ true
    → Inv s
    → Inv (end_refresh w a s)
unfolding end_refresh
end_refresh-Inv w lost s on v = release-Inv threw _ s on v
end_refresh-Inv w denied s on v = release-Inv signed_out _ s on v
end_refresh-Inv w (renewed p) s on v =
    if_cases (str_eq p.access_token "") Inv (λ e. release-Inv signed_out _ s on v)
      (λ e. release-Inv sent_again _ s on v)

step-Inv : (w : Works) (e : Event) (s : Requests) → Inv s → Inv (step w e s)
unfolding step
step-Inv w unauthorized s v = join_refresh-Inv s v
step-Inv w (refreshed a) s v =
    if_cases s.refreshing Inv (λ on. end_refresh-Inv w a s on v) (λ off. v)
step-Inv w (signs_in p) s v = record {
  once = v.once;
  one_refresh = v.one_refresh;
  posts = v.posts;
  nobody_waits = v.nobody_waits;
}
step-Inv w signs_off s v = record {
  once = v.once;
  one_refresh = v.one_refresh;
  posts = v.posts;
  nobody_waits = v.nobody_waits;
}

run-Inv : (w : Works) (es : List Event) (s : Requests) → Inv s → Inv (run w es s)
unfolding run
run-Inv w [] s v = v
run-Inv w (e ∷ es) s v = run-Inv w es (step w e s) (step-Inv w e s v)

-- Over any order of requests that meet a 401, ends of refreshes, sign-ins and sign-outs: at most
-- one refresh is under way, which sends at most one refresh token, requests wait only while it is,
-- and each request that met a 401 waits or has gone on, and not both or twice.
pub run-idle-Inv : (w : Works) (d : Device) (es : List Event) → Inv (run w es (idle d))
run-idle-Inv w d es = run-Inv w es (idle d) (record {
  once = λ k. ground arith;
  one_refresh = refl;
  posts = omega arith;
  nobody_waits = inr refl;
})

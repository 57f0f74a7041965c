-- ===== src/Matches/Prompt/Answered.antt =====
-- An answer to a choice keeps the count of the suggestions asked about.
use grocery_genie.Base.{
  nat_eq, string_eq, ℕ, zero, suc, ◌+◌, ◌≤◌, String, ◌≡◌, refl, ap, ◌⊎◌, inl, inr, Bool, true,
  false, ◌&&◌, Option, some, List, [], ◌∷◌, ◌++◌, append-nil, arith, if_cases,
}
use grocery_genie.Matches.Suggestions.{ItemSuggestion, Params}
use grocery_genie.Matches.Prompt.{
  already_resolved, Choice, merge, keep, Pending, MatchPrompt, entry_at, shown_at, close, is_last,
  advance, Answer, done, refused, result_of, succeed, settle, resolved_by, hear,
}
use grocery_genie.Matches.Prompt.Passed.{
  times, times-snoc, passed_times, passed_times_mono, passed_times-suc,
}

-- At most one choice waits for the server, its callbacks will run, and while the screen is mounted
-- `saving` says whether there is one.
abbrev pub InFlight : Bool → Bool → List Pending → Type 0
InFlight mounted saving [] = (mounted ≡ false) ⊎ (saving ≡ false)
InFlight mounted saving (p ∷ []) = ((mounted ≡ false) ⊎ (saving ≡ true)) × (p.heard ≡ true)
InFlight mounted saving (p ∷ p' ∷ ps) = ⊥

-- A suggestion was accepted or rejected no more often than it was passed, before the index or, while
-- a choice waits for the server, before that of the suggestion that it is about.
abbrev pub Bound : String → Option (List ItemSuggestion) → ℕ → List Pending → ℕ → Type 0
Bound u o index [] n = n ≤ passed_times u o index
Bound u o index (p ∷ ps) n =
    (n ≤ passed_times u o p.index) × (p.index ≤ index) × (shown_at o p.index ≡ some p.suggestion)

-- Once the prompt has gone back or is unmounted, the suggestion that it still shows may be asked
-- about again.
unfoldable pub Counted : String → MatchPrompt → Type 0
Counted u s =
    (s.mounted ≡ false)
    ⊎ (1 ≤ s.went_back)
    ⊎ Bound u s.queue s.index s.in_flight (times u s.resolved)

unfoldable pub Inv : String → MatchPrompt → Type 0
Inv u s = InFlight s.mounted s.saving s.in_flight × Counted u s

-- An `advance` from the index of a suggestion, once no choice waits any more.
advance-Inv :
    (u : String) (at : ℕ) (into : Option String) (g : ItemSuggestion) (s : MatchPrompt)
    → (1 ≤ s.went_back)
      ⊎ ((times u s.resolved ≤ passed_times u s.queue at + times u (g.id ∷ []))
          × (at ≤ s.index)
          × (shown_at s.queue at ≡ some g))
    → Inv u (record (advance at into (record s { in_flight = [] })) { saving = false })
unfolding advance close Inv Counted
advance-Inv u at into g s w =
    if_cases (is_last s.queue at) (λ t. Inv u (record t { saving = false }))
      (λ last. (inr refl, inr (inl (omega arith))))
      (λ more. (
        inr refl,
        elim w [
          | inl back ↦ inr (inl back)
          | inr c ↦ inr (
              inr (
                omega (
                  arith,
                  c.0,
                  passed_times-suc u s.queue at g c.2,
                  passed_times_mono u s.queue (suc at) (suc s.index) (omega (arith, c.1)),
                )))
        ],
      ))

resolved_by-times :
    (u : String) (a : Answer) (p : Pending) (is : List String)
    → times u (is ++ resolved_by a p) ≤ times u is + times u (p.suggestion.id ∷ [])
resolved_by-times u (done merged) p is = omega (arith, times-snoc u p.suggestion.id is)
resolved_by-times u (refused e) p is = omega (arith, ap (times u) (append-nil is))

-- The state in which the callbacks of the choice run, and what its answer passes.
abbrev answered_by : Answer → Pending → MatchPrompt → MatchPrompt
answered_by a p s = record s { resolved = s.resolved ++ resolved_by a p }

abbrev Waits : String → Pending → MatchPrompt → Type 0
Waits u p s = (1 ≤ s.went_back) ⊎ Bound u s.queue s.index (p ∷ []) (times u s.resolved)

answered_by-advance-Inv :
    (u : String) (a : Answer) (into mi : Option String) (p : Pending) (s : MatchPrompt)
    → Waits u p s
    → Inv u
        (record (advance p.index into
          (record (answered_by a p s) { in_flight = []; merged_into = mi })) { saving = false })
answered_by-advance-Inv u a into mi p s w =
    advance-Inv u p.index into p.suggestion (record (answered_by a p s) { merged_into = mi })
      (elim w [
        | inl back ↦ inl back
        | inr c ↦ inr (omega (arith, c.0, resolved_by-times u a p s.resolved), c.1, c.2)
      ])

succeed-Inv :
    (params : Params) (u : String) (merged : String) (c : Choice) (p : Pending) (s : MatchPrompt)
    → Waits u p s
    → Inv u
        (record (succeed params c merged p
          (record (answered_by (done merged) p s) { in_flight = [] })) { saving = false })
unfolding succeed
succeed-Inv params u merged merge p s w =
    let into = result_of params p.suggestion merged p.merged_into in
    answered_by-advance-Inv u (done merged) into into p s w
succeed-Inv params u merged keep p s w =
    answered_by-advance-Inv u (done merged) p.merged_into s.merged_into p s w

settle-Inv :
    (params : Params) (u : String) (a : Answer) (p : Pending) (s : MatchPrompt)
    → Waits u p s
    → Inv u (settle params a p (record (answered_by a p s) { in_flight = [] }))
unfolding settle
settle-Inv params u (done merged) p s w = succeed-Inv params u merged p.choice p s w
settle-Inv params u (refused e) p s w =
    if_cases (already_resolved e) (Inv u)
      (λ elsewhere. answered_by-advance-Inv u (refused e) p.merged_into s.merged_into p s w)
      (λ failing.
        unfold Inv Counted in
        (
          inr refl,
          inr (elim w [
            | inl back ↦ inl back
            | inr c ↦ inr (
                omega (
                  arith,
                  c.0,
                  ap (times u) (append-nil s.resolved),
                  passed_times_mono u s.queue p.index s.index c.1,
                ))
          ]),
        ))

-- The choices that wait for the server are `flight`.
abbrev pub with_flight : List Pending → MatchPrompt → MatchPrompt
with_flight flight s = record s { in_flight = flight }

pub hear-Inv :
    (params : Params) (u : String) (n : ℕ) (a : Answer) (flight : List Pending) (s : MatchPrompt)
    → Inv u (with_flight flight s)
    → Inv u (hear params n a (entry_at n flight) (with_flight flight s))
unfolding hear
hear-Inv params u n a [] s v = v
hear-Inv params u (suc n) a (p ∷ []) s v = v
hear-Inv params u n a (p ∷ p' ∷ ps) s v = unfold Inv in absurd (v.0)
hear-Inv params u zero a (p ∷ []) s v =
    unfold Inv Counted in
    if_cases (s.mounted && p.heard) (Inv u)
      (λ on.
        settle-Inv params u a p s
          (elim v.1 [ inl gone ↦ absurd (ground (arith, gone, on)) | inr w ↦ w ]))
      (λ off. let gone : s.mounted ≡ false = ground (arith, off, v.0.1) in (inl gone, inl gone))

-- ===== src/Matches/Prompt/Asked.antt =====
-- How often the prompt asks about a suggestion.
use grocery_genie.Base.{
  nat_eq, string_eq, ℕ, suc, ◌≤◌, String, ◌≡◌, refl, ◌⊎◌, inl, inr, Bool, true, false, ◌||◌, Option,
  none, some, List, [], ◌∷◌, arith, leb, if_cases, length,
}
use grocery_genie.Matches.Suggestions.{ItemSuggestion, Params, queue_of}
use grocery_genie.Matches.Prompt.{
  Choice, merge, keep, Pending, MatchPrompt, current, close, is_last, advance, fill, load, mutate,
  choose, press, skip, Step, loaded, merge_pressed, keep_pressed, skip_pressed, cancel_pressed,
  answered, rendered, unmounted, act, is_answer, step, run, shown_first,
}
use grocery_genie.Matches.Prompt.Passed.{times, passed_times, passed_times_mono}
use grocery_genie.Matches.Prompt.Answered.{InFlight, Bound, Counted, Inv, with_flight, hear-Inv}

Bound-later :
    (u : String) (o : Option (List ItemSuggestion)) (i n : ℕ) (flight : List Pending)
    → Bound u o i flight n
    → Bound u o (suc i) flight n
Bound-later u o i n [] b = omega (arith, b, passed_times_mono u o i (suc i) (omega arith))
Bound-later u o i n (p ∷ ps) b = (b.0, omega (arith, b.1), b.2)

skip-Inv : (u : String) (o : Option ItemSuggestion) (s : MatchPrompt) → Inv u s → Inv u (skip o s)
unfolding skip advance close Inv Counted
skip-Inv u none s v = v
skip-Inv u (some g) s v =
    if_cases s.busy (Inv u) (λ disabled. v)
      (λ enabled.
        if_cases (is_last s.queue s.index) (Inv u) (λ last. (v.0, inr (inl (omega arith))))
          (λ more. (
            v.0,
            elim v.1 [
              | inl gone ↦ inl gone
              | inr (inl back) ↦ inr (inl back)
              | inr (inr b) ↦
                  inr (inr (Bound-later u s.queue s.index (times u s.resolved) s.in_flight b))
            ],
          )))

choose-Inv :
    (u : String) (c : Choice) (o : Option ItemSuggestion) (flight : List Pending) (s : MatchPrompt)
    → s.mounted ≡ true
    → current s ≡ o
    → Inv u (with_flight flight s)
    → Inv u (choose c o (with_flight flight s))
unfolding choose mutate Inv Counted
choose-Inv u c none flight s here shown v = v
choose-Inv u c (some g) [] s here shown v =
    if_cases s.saving (Inv u) (λ taken. v)
      (λ free. (
        (inr refl, refl),
        elim v.1 [
          | inl gone ↦ inl gone
          | inr (inl back) ↦ inr (inl back)
          | inr (inr b) ↦ inr (inr (b, omega arith, shown))
        ],
      ))
choose-Inv u c (some g) (p ∷ []) s here shown v =
    if_cases s.saving (Inv u) (λ taken. v) (λ free. absurd (ground (arith, free, here, v.0.0)))
choose-Inv u c (some g) (p ∷ p' ∷ ps) s here shown v = absurd (v.0)

fill-Inv :
    (u : String) (o : Option (List ItemSuggestion)) (q : List ItemSuggestion)
    (flight : List Pending) (s : MatchPrompt)
    → Inv u (record s { queue = o; in_flight = flight })
    → Inv u (fill o q (record s { queue = o; in_flight = flight }))
unfolding fill Inv Counted
fill-Inv u (some before) q flight s v = v
fill-Inv u none q flight s v =
    if_cases (leb (length q) 0) (Inv u) (λ nothing. (v.0, inr (inl (omega arith))))
      (λ something. (
        v.0,
        elim v.1 [
          | inl gone ↦ inl gone
          | inr (inl back) ↦ inr (inl back)
          | inr (inr b) ↦ inr (inr (still flight b))
        ],
      ))
  where
    still :
        (fl : List Pending)
        → Bound u none s.index fl (times u s.resolved)
        → Bound u (some q) s.index fl (times u s.resolved)
    still [] b = omega (arith, b)
    still (p ∷ ps) b = absurd (ground (arith, b.2))

InFlight-gone :
    (m saving : Bool) (flight : List Pending)
    → InFlight m saving flight
    → InFlight false saving flight
InFlight-gone m saving [] h = inl refl
InFlight-gone m saving (p ∷ []) h = (inl refl, h.1)
InFlight-gone m saving (p ∷ p' ∷ ps) h = h

press-Inv :
    (u : String) (c : Choice) (s : MatchPrompt) → s.mounted ≡ true → Inv u s → Inv u (press c s)
unfolding press
press-Inv u c s here v =
    if_cases s.busy (Inv u) (λ disabled. v)
      (λ enabled. choose-Inv u c (current s) s.in_flight s here refl v)

act-Inv :
    (params : Params) (u : String) (x : Step) (s : MatchPrompt)
    → (s.mounted || is_answer x) ≡ true
    → Inv u s
    → Inv u (act params x s)
unfolding act load
act-Inv params u (loaded all) s here v = fill-Inv u s.queue (queue_of all params) s.in_flight s v
act-Inv params u merge_pressed s here v = press-Inv u merge s (ground (arith, here)) v
act-Inv params u keep_pressed s here v = press-Inv u keep s (ground (arith, here)) v
act-Inv params u skip_pressed s here v = skip-Inv u (current s) s v
act-Inv params u cancel_pressed s here v =
    unfold close Inv Counted in (v.0, inr (inl (omega arith)))
act-Inv params u (answered n a) s here v = hear-Inv params u n a s.in_flight s v
act-Inv params u rendered s here v = unfold Inv Counted in v
act-Inv params u unmounted s here v =
    unfold Inv Counted in (InFlight-gone s.mounted s.saving s.in_flight v.0, inl refl)

run-Inv :
    (params : Params) (u : String) (xs : List Step) (s : MatchPrompt)
    → Inv u s
    → Inv u (run params xs s)
unfolding run step
run-Inv params u [] s v = v
run-Inv params u (x ∷ xs) s v =
    run-Inv params u xs (step params x s)
      (if_cases (s.mounted || is_answer x) (Inv u) (λ on. act-Inv params u x s on v) (λ off. v))

flight_of :
    (u : String) (o : Option (List ItemSuggestion)) (i n : ℕ) (flight : List Pending)
    → Bound u o i flight n
    → n ≤ passed_times u o i
flight_of u o i n [] b = b
flight_of u o i n (p ∷ ps) b = omega (arith, b.0, passed_times_mono u o p.index i b.1)

-- Over any run of the prompt at most one choice waits for the server, and its callbacks have not
-- been dropped for another; while the screen is mounted, `saving` says whether a choice waits. Until
-- the prompt goes back or is unmounted, a suggestion was accepted or rejected no more often than it
-- stands among those that were passed, before the index.
pub run-Once :
    (params : Params) (u : String) (xs : List Step)
    → let s = run params xs shown_first in
      InFlight s.mounted s.saving s.in_flight
      × ((s.mounted ≡ false)
          ⊎ (1 ≤ s.went_back)
          ⊎ (times u s.resolved ≤ passed_times u s.queue s.index))
run-Once params u xs =
    let s = run params xs shown_first in
    let v =
      run-Inv params u xs shown_first (unfold Inv Counted in (inr refl, inr (inr (omega arith)))) in
    unfold Inv Counted in
    (
      v.0,
      elim v.1 [
        | inl gone ↦ inl gone
        | inr (inl back) ↦ inr (inl back)
        | inr (inr b) ↦ inr (inr (flight_of u s.queue s.index (times u s.resolved) s.in_flight b))
      ],
    )

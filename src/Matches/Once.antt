-- ===== src/Matches/Once.antt =====
-- What a prompt after a confirm asks, and how often.
use grocery_genie.Base.{
  nat_eq, string_eq, ℕ, suc, ◌+◌, ◌≤◌, ◌<◌, String, ◌≡◌, refl, sym, ap, ◌∙◌, ◌≢◌, ◌⊎◌, Bool, true,
  false, not, ◌||◌, Option, none, some, List, [], ◌∷◌, ◌++◌, map, arith, ltb, if_cases, length,
  select, take, All, All-map, All-select, length-take-le,
}
use grocery_genie.Matches.{
  Suggestion, State, mem, same_path, record_path, fresh_of, claim, best_first, id_of, best_of,
  open_prompt, prompt_matches, Event, moved, loaded, step, run,
}

-- All ids that were asked about, newest prompt first.
abbrev pub asked : List (List String) → List String
asked [] = []
asked (p ∷ ps) = p ++ asked ps

-- No id of the prompts opened later was asked about before.
abbrev pub Separate : List (List String) → Type 0
Separate [] = Unit
Separate (p ∷ ps) = All (λ i. mem i (asked ps) ≡ false) p × Separate ps

abbrev pub Short : List String → Type 0
Short p = (length p ≤ 3) × (p ≢ [])

pub record Inv (s : State) : Type 0 where
  pub marked : (i : String) → (mem i (asked s.opened) ≡ mem i s.prompted)
  pub separate : Separate s.opened
  pub short : All Short s.opened

mem-append : (i : String) (xs ys : List String) → mem i (xs ++ ys) ≡ (mem i xs || mem i ys)
mem-append i [] ys = refl
mem-append i (x ∷ xs) ys = ground (arith, mem-append i xs ys)

length-map : (f : Suggestion → String) (xs : List Suggestion) → length (map f xs) ≡ length xs
length-map f [] = refl
length-map f (x ∷ xs) = ap suc (length-map f xs)

length-select-le : (p : String → Bool) (xs : List String) → length (select p xs) ≤ length xs
length-select-le p [] = omega arith
length-select-le p (x ∷ xs) = ground (arith, length-select-le p xs)

best_of-short : (xs : List Suggestion) → length (best_of xs) ≤ 3
unfolding best_of
best_of-short xs =
    omega (arith, length-map id_of (take 3 (best_first xs)), length-take-le 3 (best_first xs))

fresh_of-short :
    (prompted : List String) (xs : List Suggestion) → length (fresh_of prompted (best_of xs)) ≤ 3
unfolding fresh_of
fresh_of-short prompted xs =
    omega (arith, best_of-short xs, length-select-le (λ i. not (mem i prompted)) (best_of xs))

fresh_of-new :
    (prompted is : List String) → All (λ i. mem i prompted ≡ false) (fresh_of prompted is)
unfolding fresh_of
fresh_of-new prompted is =
    All-map (λ i. not (mem i prompted) ≡ true) (λ i. mem i prompted ≡ false) (λ i h. ground arith)
      (select (λ i. not (mem i prompted)) is) (All-select (λ i. not (mem i prompted)) is)

open_prompt-Inv :
    (p : List String) (s : State)
    → length p ≤ 3
    → All (λ i. mem i s.prompted ≡ false) p
    → Inv s
    → Inv (open_prompt p (p ++ s.prompted) s)
open_prompt-Inv [] s l new v = v
open_prompt-Inv (i ∷ is) s l new v = record {
  marked = λ j.
      mem-append j (i ∷ is) (asked s.opened)
      ∙ rw (v.marked j) (sym (mem-append j (i ∷ is) s.prompted));
  separate = (
    All-map (λ j. mem j s.prompted ≡ false) (λ j. mem j (asked s.opened) ≡ false)
        (λ j h. v.marked j ∙ h) (i ∷ is) new,
    v.separate,
  );
  short = ((l, λ k. cc), v.short);
}

step-Inv : (e : Event) (s : State) → Inv s → Inv (step e s)
unfolding step claim record_path
step-Inv (moved p) s v =
    if_cases (same_path s.pathname p) Inv (λ same. v)
      (λ other. record { marked = v.marked; separate = v.separate; short = v.short })
step-Inv (loaded allowed none) s v = v
step-Inv (loaded allowed (some xs)) s v =
    if_cases (ltb allowed s.changes) Inv (λ late. v)
      (λ in_time.
        open_prompt-Inv (fresh_of s.prompted (best_of xs)) s (fresh_of-short s.prompted xs)
          (fresh_of-new s.prompted (best_of xs)) v)

run-Inv : (es : List Event) (s : State) → Inv s → Inv (run es s)
unfolding run
run-Inv [] s v = v
run-Inv (e ∷ es) s v = run-Inv es (step e s) (step-Inv e s v)

abbrev pub launched : State
launched = record { prompted = []; pathname = none; changes = 0; opened = [] }

-- Over any sequence of screen changes and loaded suggestions, each prompt asks about one to three
-- suggestions, none of which an earlier prompt of the session asked about, and the store's
-- `prompted` holds exactly the suggestions asked about.
run-launched-Inv : (es : List Event) → Inv (run es launched)
run-launched-Inv es = run-Inv es launched (record { marked = λ i. refl; separate = tt; short = tt })

-- Nothing opens, and nothing is marked as asked, if the user has left the screen that the confirm
-- led to, or if the suggestions did not load.
prompt_matches_late :
    (changes : ℕ) (o : Option (List Suggestion)) (s : State)
    → (changes + 1 < s.changes) ⊎ (o ≡ none)
    → prompt_matches (changes + 1) o s ≡ s
unfolding prompt_matches
prompt_matches_late changes none s h = refl
prompt_matches_late changes (some xs) s h = ground arith

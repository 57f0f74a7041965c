-- ===== src/Matches/Prompt.antt =====
-- The prompt that asks whether two items are the same: mobile/app/items/match.tsx. The calls of the
-- router, the choices that wait for the server, and the suggestions that it has accepted or rejected
-- are part of the state. What a handler sets is rendered before the next event, but that a mutation
-- is pending only at a `rendered` event. The callbacks of a mutation keep the index and the merged
-- item of the render in which its button was pressed, and are dropped if the same mutation starts
-- anew or if the screen is unmounted before the answer.
pub mod Answered
pub mod Asked
pub mod Order
pub mod Passed
use grocery_genie.Base.{
  Eq, nat_eq, string_eq, option_beq, option_beq_iff, changed, trim, is_empty, ℕ, zero, suc, ◌+◌,
  ◌-◌, ◌*◌, ◌/◌, ◌%◌, ◌≤◌, ◌<◌, String, ◌≡◌, refl, sym, ap, subst, ◌∙◌, ◌≢◌, ◌↔◌, ◌⊎◌, inl, inr,
  Bool, true, false, not, ◌&&◌, ◌||◌, Option, none, some, List, [], ◌∷◌, ◌++◌, map, append-nil,
  append_assoc, map-append, arith, str_eq, eq_iff, eq_refl, ltb, leb, ◌==◌, if◌then◌else◌, ltb→lt,
  leb→le, ==_iff, Bool-cases, if_cases, Option-cases, or_else, is_some, length, select, find, any,
  take, drop, All, length-append, All-append, All-map, All-select, All-select_of, length-take-le,
  select-append, Pairwise, Pairwise-map, find-cases,
}
use grocery_genie.Matches.Suggestions.{ItemSuggestion, Params, queue_of}
use grocery_genie.Errors.{Thrown, api, other, ApiError}

unfoldable pub already_resolved : Thrown → Bool
already_resolved (api e) = e.status == 409 || e.status == 404
already_resolved other = false

pub data Choice : Type 0 where
  merge keep : Choice

-- A choice that the server has not answered: what its callbacks know, and whether they will run.
pub record Pending : Type 0 where
  pub choice : Choice
  pub suggestion : ItemSuggestion
  pub index : ℕ
  pub merged_into : Option String
  pub heard : Bool

pub record MatchPrompt : Type 0 where
  pub queue : Option (List ItemSuggestion)
  pub index : ℕ
  pub failed : Bool
  pub merged_into : Option String
  pub saving : Bool
  pub in_flight : List Pending
  pub busy : Bool
  pub resolved : List String
  pub went_back : ℕ
  pub opened : List String
  pub mounted : Bool

abbrev pub entry_at {ℓ} : {A : Type ℓ} → ℕ → List A → Option A
entry_at i [] = none
entry_at zero (s ∷ ss) = some s
entry_at (suc i) (s ∷ ss) = entry_at i ss

abbrev pub shown_at : Option (List ItemSuggestion) → ℕ → Option ItemSuggestion
shown_at none i = none
shown_at (some q) i = entry_at i q

-- queue?.[index]
abbrev pub current : MatchPrompt → Option ItemSuggestion
current s = shown_at s.queue s.index

abbrev pub and_open : Option String → List String → List String
and_open none opened = opened
and_open (some i) opened = if is_empty i then opened else opened ++ i ∷ []

unfoldable pub close : Option String → MatchPrompt → MatchPrompt
close into s = record s { went_back = s.went_back + 1; opened = and_open into s.opened }

abbrev pub is_last : Option (List ItemSuggestion) → ℕ → Bool
is_last none index = false
is_last (some q) index = leb (length q) (index + 1)

-- `index` is that of the render whose `advance` this is.
unfoldable pub advance : ℕ → Option String → MatchPrompt → MatchPrompt
unfolding close
advance index into s =
    let s' = record s { failed = false } in
    if is_last s.queue index then close into s' else record s' { index = suc s.index }

-- Once the suggestions are there; with none of them to ask about, the prompt goes back.
unfoldable pub fill : Option (List ItemSuggestion) → List ItemSuggestion → MatchPrompt → MatchPrompt
fill (some before) q s = s
fill none q s =
    let s' = record s { queue = some q } in
    if leb (length q) 0 then record s' { went_back = s.went_back + 1 } else s'

unfoldable pub load : List ItemSuggestion → Params → MatchPrompt → MatchPrompt
unfolding fill
load all params s = fill s.queue (queue_of all params) s

abbrev pub same_choice : Choice → Choice → Bool
same_choice merge merge = true
same_choice merge keep = false
same_choice keep merge = false
same_choice keep keep = true

-- `mutate` drops the callbacks of the mutation that it replaces.
abbrev pub replaced_by : Choice → Pending → Pending
replaced_by c p = if same_choice c p.choice then record p { heard = false } else p

unfoldable pub mutate : Choice → ItemSuggestion → MatchPrompt → MatchPrompt
mutate c g s = record s {
  in_flight =
      map (replaced_by c) s.in_flight
      ++ record {
        choice = c;
        suggestion = g;
        index = s.index;
        merged_into = s.merged_into;
        heard = true;
      }
        ∷ [];
}

-- onMerge and onKeep, of the suggestion that is shown
unfoldable pub choose : Choice → Option ItemSuggestion → MatchPrompt → MatchPrompt
unfolding mutate
choose c none s = s
choose c (some g) s = if s.saving then s else mutate c g (record s { saving = true })

-- The button is disabled by what was rendered last.
unfoldable pub press : Choice → MatchPrompt → MatchPrompt
unfolding choose
press c s = if s.busy then s else choose c (current s) s

unfoldable pub skip : Option ItemSuggestion → MatchPrompt → MatchPrompt
unfolding advance
skip none s = s
skip (some g) s = if s.busy then s else advance s.index s.merged_into s

pub data Answer : Type 0 where
  done : String → Answer
  refused : Thrown → Answer

-- From item detail, the item on screen may have been merged away.
abbrev pub result_of : Params → ItemSuggestion → String → Option String → Option String
result_of params g merged before = elim (params.item_id) [
  | none ↦ before
  | some i ↦
      if not (is_empty i) && str_eq g.item_id i && not (str_eq merged i)
      then some merged
      else before
]

-- onSuccess; `merged` is the id of the item that an accepted suggestion gave.
unfoldable pub succeed : Params → Choice → String → Pending → MatchPrompt → MatchPrompt
unfolding advance
succeed params merge merged p s =
    let into = result_of params p.suggestion merged p.merged_into in
    advance p.index into (record s { merged_into = into })
succeed params keep merged p s = advance p.index p.merged_into s

-- The callbacks of a mutation; onSettled comes last.
unfoldable pub settle : Params → Answer → Pending → MatchPrompt → MatchPrompt
unfolding succeed advance already_resolved
settle params (done merged) p s = record (succeed params p.choice merged p s) { saving = false }
settle params (refused e) p s =
    if already_resolved e
    then record (advance p.index p.merged_into s) { saving = false }
    else record s { failed = true; saving = false }

pub data Step : Type 0 where
  loaded : List ItemSuggestion → Step
  merge_pressed keep_pressed skip_pressed cancel_pressed : Step
  answered : ℕ → Answer → Step
  rendered unmounted : Step

abbrev pub resolved_by : Answer → Pending → List String
resolved_by (done merged) p = p.suggestion.id ∷ []
resolved_by (refused e) p = []

abbrev pub without : ℕ → List Pending → List Pending
without n [] = []
without zero (p ∷ ps) = ps
without (suc n) (p ∷ ps) = p ∷ without n ps

unfoldable pub hear : Params → ℕ → Answer → Option Pending → MatchPrompt → MatchPrompt
unfolding settle
hear params n a none s = s
hear params n a (some p) s =
    let s' = record s {
      in_flight = without n s.in_flight;
      resolved = s.resolved ++ resolved_by a p;
    } in
    if s.mounted && p.heard then settle params a p s' else s'

-- isPending: of the two mutations as they were last started
abbrev pub is_pending : List Pending → Bool
is_pending [] = false
is_pending (p ∷ ps) = p.heard || is_pending ps

unfoldable pub act : Params → Step → MatchPrompt → MatchPrompt
unfolding load press skip close hear
act params (loaded all) s = load all params s
act params merge_pressed s = press merge s
act params keep_pressed s = press keep s
act params skip_pressed s = skip (current s) s
act params cancel_pressed s = close s.merged_into s
act params (answered n a) s = hear params n a (entry_at n s.in_flight) s
act params rendered s = record s { busy = is_pending s.in_flight }
act params unmounted s = record s { mounted = false }

abbrev pub is_answer : Step → Bool
is_answer (answered n a) = true
is_answer _ = false

-- A screen that is gone has no taps and no renders, but the server still answers.
unfoldable pub step : Params → Step → MatchPrompt → MatchPrompt
unfolding act
step params x s = if s.mounted || is_answer x then act params x s else s

unfoldable pub run : Params → List Step → MatchPrompt → MatchPrompt
unfolding step
run params [] s = s
run params (x ∷ xs) s = run params xs (step params x s)

abbrev pub shown_first : MatchPrompt
shown_first = record {
  queue = none;
  index = 0;
  failed = false;
  merged_into = none;
  saving = false;
  in_flight = [];
  busy = false;
  resolved = [];
  went_back = 0;
  opened = [];
  mounted = true;
}

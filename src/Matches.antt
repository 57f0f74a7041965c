-- ===== src/Matches.antt =====
-- The questions about matching items after a receipt is confirmed:
-- mobile/src/features/price-intelligence/services/postConfirmMatches.ts over
-- mobile/src/store/matchPromptStore.ts and routeStore.ts.
pub mod Once
pub mod Prompt
pub mod Suggestions
mod Tests
use grocery_genie.Base.{
  Eq, nat_eq, string_eq, option_beq, option_beq_iff, changed, trim, is_empty, ℕ, zero, suc, ◌+◌,
  ◌-◌, ◌*◌, ◌/◌, ◌%◌, ◌≤◌, ◌<◌, String, ◌≡◌, refl, sym, ap, subst, ◌∙◌, ◌≢◌, ◌↔◌, ◌⊎◌, inl, inr,
  Bool, true, false, not, ◌&&◌, ◌||◌, Option, none, some, List, [], ◌∷◌, ◌++◌, map, append-nil,
  append_assoc, map-append, arith, str_eq, eq_iff, eq_refl, ltb, leb, ◌==◌, if◌then◌else◌, ltb→lt,
  leb→le, ==_iff, Bool-cases, if_cases, Option-cases, or_else, is_some, length, select, find, any,
  take, drop, All, length-append, All-append, All-map, All-select, All-select_of, length-take-le,
  select-append,
}

pub record Suggestion : Type 0 where
  pub id : String
  pub confidence : ℕ

-- The keys of `prompted`, the route store, and the prompts opened, newest first.
pub record State : Type 0 where
  pub prompted : List String
  pub pathname : Option String
  pub changes : ℕ
  pub opened : List (List String)

abbrev pub mem : String → List String → Bool
mem i is = any (λ j. str_eq j i) is

abbrev pub same_path : Option String → String → Bool
same_path none p = false
same_path (some q) p = str_eq p q

-- `record` of the route store.
unfoldable pub record_path : String → State → State
record_path p s =
    if same_path s.pathname p then s else record s { pathname = some p; changes = s.changes + 1 }

unfoldable pub fresh_of : List String → List String → List String
fresh_of prompted ids = select (λ i. not (mem i prompted)) ids

-- `claim`: the ids not yet prompted, and the store that has them.
unfoldable pub claim : List String → List String → List String × List String
unfolding fresh_of
claim ids prompted = (fresh_of prompted ids, fresh_of prompted ids ++ prompted)

-- sort((a, b) => b.confidence - a.confidence), which keeps the order of equals.
unfoldable pub insert : Suggestion → List Suggestion → List Suggestion
insert x [] = x ∷ []
insert x (y ∷ ys) =
    let rest = insert x ys in if leb y.confidence x.confidence then x ∷ y ∷ ys else y ∷ rest

unfoldable pub best_first : List Suggestion → List Suggestion
unfolding insert
best_first [] = []
best_first (x ∷ xs) = insert x (best_first xs)

-- POST_CONFIRM_MAX
abbrev pub post_confirm_max : ℕ
post_confirm_max = 3

abbrev pub id_of : Suggestion → String
id_of x = x.id

unfoldable pub best_of : List Suggestion → List String
unfolding best_first
best_of suggestions = map id_of (take post_confirm_max (best_first suggestions))

abbrev pub open_prompt : List String → List String → State → State
open_prompt [] prompted s = record s { prompted = prompted }
open_prompt (i ∷ is) prompted s = record s { prompted = prompted; opened = (i ∷ is) ∷ s.opened }

-- promptMatchesAfterConfirm, once the suggestions have loaded (`none` if that failed); `allowed`
-- was read at its start, one more than `changes` then.
unfoldable pub prompt_matches : ℕ → Option (List Suggestion) → State → State
unfolding best_of claim
prompt_matches allowed none s = s
prompt_matches allowed (some suggestions) s =
    if ltb allowed s.changes
    then s
    else open_prompt (claim (best_of suggestions) s.prompted).0
        (claim (best_of suggestions) s.prompted).1 s

pub data Event : Type 0 where
  moved : String → Event
  loaded : ℕ → Option (List Suggestion) → Event

unfoldable pub step : Event → State → State
unfolding record_path prompt_matches
step (moved p) s = record_path p s
step (loaded allowed o) s = prompt_matches allowed o s

unfoldable pub run : List Event → State → State
run [] s = s
run (e ∷ es) s = run es (step e s)

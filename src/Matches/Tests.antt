-- ===== src/Matches/Tests.antt =====
-- Prompts on small examples.
use grocery_genie.Base.{
  nat_eq, string_eq, ℕ, ◌≤◌, String, ◌≡◌, refl, ◌⊎◌, Bool, true, false, none, some, List, [], ◌∷◌,
}
use grocery_genie.Matches.Prompt as Prompt
use grocery_genie.Matches.Suggestions.{ItemSuggestion, Params, queue_of}
use grocery_genie.Matches.Prompt.{
  already_resolved, Choice, merge, keep, Pending, MatchPrompt, entry_at, shown_at, current,
  and_open, close, is_last, advance, fill, load, same_choice, replaced_by, mutate, choose, press,
  skip, Answer, done, refused, result_of, succeed, settle, Step, loaded, merge_pressed,
  keep_pressed, skip_pressed, cancel_pressed, answered, rendered, unmounted, resolved_by, without,
  hear, is_pending, act, is_answer, step, run, shown_first,
}
use grocery_genie.Matches.Prompt.Answered.{InFlight}
use grocery_genie.Matches.Prompt.Asked.{run-Once}
use grocery_genie.Matches.Prompt.Passed.{times, passed_times}
use grocery_genie.Base.Sorting.{sort_by, insert_by}
use grocery_genie.Errors.{api}
use grocery_genie.Matches.{Suggestion, best_of}

abbrev suggestion : String → ℕ → Suggestion
suggestion i c = record { id = i; confidence = c }

abbrev found : List Suggestion
found = suggestion "s1" 60 ∷ suggestion "s2" 90 ∷ suggestion "s3" 70 ∷ suggestion "s4" 65 ∷ []

best_three : best_of found ≡ "s2" ∷ "s3" ∷ "s4" ∷ []
unfolding best_of
best_three = refl

abbrev question : String → ItemSuggestion
question i = record { id = i; item_id = "milk" }

abbrev questions : List ItemSuggestion
questions = question "s1" ∷ question "s2" ∷ question "s3" ∷ []

abbrev route : Params
route = record { item_id = some "milk"; ids = none; start = some "s2" }

from_the_start : queue_of questions route ≡ question "s2" ∷ question "s3" ∷ question "s1" ∷ []
unfolding queue_of sort_by insert_by
from_the_start = refl

abbrev all_of : ItemSuggestion → Bool
all_of s = true

abbrev answers : List Step
answers =
    loaded questions
    ∷ merge_pressed
    ∷ answered 0 (refused (api (record { status = 500; body = none })))
    ∷ merge_pressed
    ∷ answered 0 (done "oat_milk")
    ∷ skip_pressed
    ∷ keep_pressed
    ∷ answered 0 (refused (api (record { status = 409; body = none })))
    ∷ []

leads_to_the_result : (Prompt.run route answers shown_first).opened ≡ "oat_milk" ∷ []
unfolding Prompt.run Prompt.step act load fill queue_of sort_by insert_by press choose mutate hear
    settle succeed advance close already_resolved skip
leads_to_the_result = refl

abbrev past_the_end : List Step
past_the_end =
    loaded questions
    ∷ skip_pressed
    ∷ merge_pressed
    ∷ skip_pressed
    ∷ rendered
    ∷ skip_pressed
    ∷ answered 0 (done "oat_milk")
    ∷ []

-- Skip, pressed before the mutation is seen to be pending, passes a suggestion that is then passed
-- again by the answer: the prompt shows none, and does not go back.
shows_none :
    let s = Prompt.run route past_the_end shown_first in
    (current s ≡ none) × (s.index ≡ 3) × (s.went_back ≡ 0)
unfolding Prompt.run Prompt.step act load fill queue_of sort_by insert_by press choose mutate hear
    settle succeed advance close skip
shows_none = (refl, refl, refl)

run-Once_example :
    let s = Prompt.run route answers shown_first in
    InFlight s.mounted s.saving s.in_flight
    × ((s.mounted ≡ false)
        ⊎ (1 ≤ s.went_back)
        ⊎ (times "s1" s.resolved ≤ passed_times "s1" s.queue s.index))
run-Once_example = run-Once route "s1" answers

-- ===== src/Scan/Consent.antt =====
-- The consent sheet's answer: mobile/src/features/ai-consent/services/consentPrompt.ts. Requests
-- are numbered in their order; `pending` is the waiting one, and `later` holds the answers that a
-- timer still has to give.
pub mod Answers
use grocery_genie.Base.{
  Eq, nat_eq, string_eq, option_beq, option_beq_iff, changed, trim, is_empty, ℕ, zero, suc, ◌+◌,
  ◌-◌, ◌*◌, ◌/◌, ◌%◌, ◌≤◌, ◌<◌, String, ◌≡◌, refl, sym, ap, subst, ◌∙◌, ◌≢◌, ◌↔◌, ◌⊎◌, inl, inr,
  Bool, true, false, not, ◌&&◌, ◌||◌, Option, none, some, List, [], ◌∷◌, ◌++◌, map, append-nil,
  append_assoc, map-append, arith, str_eq, eq_iff, eq_refl, ltb, leb, ◌==◌, if◌then◌else◌, ltb→lt,
  leb→le, ==_iff, Bool-cases, if_cases, Option-cases, or_else, is_some, length, select, find, any,
  take, drop, All, length-append, All-append, All-map, All-select, All-select_of, length-take-le,
  select-append,
}

pub record Prompt : Type 0 where
  pub pending : Option ℕ
  pub made : ℕ
  pub later : List (ℕ × Bool)
  pub answers : List (ℕ × Bool)

abbrev pub give : ℕ → ℕ × Bool → Prompt → Prompt
give delay_ms a p =
    if ltb 0 delay_ms
    then record p { later = a ∷ p.later }
    else record p { answers = a ∷ p.answers }

abbrev pub give_to : Option ℕ → Bool → ℕ → Prompt → Prompt
give_to none allowed delay_ms p = p
give_to (some k) allowed delay_ms p = give delay_ms (k, allowed) p

unfoldable pub answer_ai_consent : Bool → ℕ → Prompt → Prompt
answer_ai_consent allowed delay_ms p =
    give_to p.pending allowed delay_ms (record p { pending = none })

unfoldable pub request_ai_consent : Prompt → Prompt
unfolding answer_ai_consent
request_ai_consent p =
    let p' = answer_ai_consent false 0 p in record p' { pending = some p'.made; made = suc p'.made }

-- The newest timer of `later` fires; the others fire after it, in any order.
abbrev pub fire_first : List (ℕ × Bool) → Prompt → Prompt
fire_first [] p = p
fire_first (a ∷ as') p = record p { later = as'; answers = a ∷ p.answers }

abbrev pub rotate : List (ℕ × Bool) → List (ℕ × Bool)
rotate [] = []
rotate (a ∷ as') = as' ++ a ∷ []

pub data Event : Type 0 where
  requested timer_fired other_timer : Event
  answered : Bool → ℕ → Event

-- `other_timer` puts another timer first.
unfoldable pub step : Event → Prompt → Prompt
unfolding request_ai_consent answer_ai_consent
step requested p = request_ai_consent p
step timer_fired p = fire_first p.later p
step other_timer p = record p { later = rotate p.later }
step (answered allowed delay_ms) p = answer_ai_consent allowed delay_ms p

unfoldable pub run : List Event → Prompt → Prompt
run [] p = p
run (e ∷ es) p = run es (step e p)

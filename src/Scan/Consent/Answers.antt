-- ===== src/Scan/Consent/Answers.antt =====
-- Every request for consent has one answer.
use grocery_genie.Base.{
  nat_eq, string_eq, ℕ, ◌+◌, ◌≡◌, refl, Bool, false, Option, none, some, List, [], ◌∷◌, ◌++◌, arith,
  ltb, ◌==◌, if◌then◌else◌,
}
use grocery_genie.Scan.Consent.{
  Prompt, give_to, answer_ai_consent, request_ai_consent, fire_first, rotate, Event, requested,
  timer_fired, other_timer, answered, step, run,
}

-- How often `k` stands among these answers.
abbrev pub count : ℕ → List (ℕ × Bool) → ℕ
count k [] = 0
count k ((j, b) ∷ as') = (if j == k then 1 else 0) + count k as'

abbrev pub waits : ℕ → Option ℕ → ℕ
waits k none = 0
waits k (some j) = if j == k then 1 else 0

-- Each request made is waiting, or its answer is on its way, or given: one of them, and once.
abbrev pub Once : Prompt → Type 0
Once p =
    (k : ℕ)
    → waits k p.pending + count k p.later + count k p.answers ≡ (if ltb k p.made then 1 else 0)

count-append : (k : ℕ) (xs ys : List (ℕ × Bool)) → count k (xs ++ ys) ≡ count k xs + count k ys
count-append k [] ys = omega arith
count-append k ((j, b) ∷ xs) ys = omega (arith, count-append k xs ys)

give_to-counts :
    (k : ℕ) (o : Option ℕ) (allowed : Bool) (delay_ms : ℕ) (p : Prompt)
    → p.pending ≡ none
    → let p' = give_to o allowed delay_ms p in
      (count k p'.later + count k p'.answers ≡ waits k o + count k p.later + count k p.answers)
      × (p'.pending ≡ none)
      × (p'.made ≡ p.made)
give_to-counts k none allowed delay_ms p e = (omega arith, e, refl)
give_to-counts k (some j) allowed delay_ms p e = ground arith

answer_ai_consent-Once :
    (allowed : Bool) (delay_ms : ℕ) (p : Prompt)
    → Once p
    → Once (answer_ai_consent allowed delay_ms p)
unfolding answer_ai_consent
answer_ai_consent-Once allowed delay_ms p o k =
    let c = give_to-counts k p.pending allowed delay_ms (record p { pending = none }) refl in
    ground (arith, c.0, c.1, c.2, o k)

request_ai_consent-Once : (p : Prompt) → Once p → Once (request_ai_consent p)
unfolding request_ai_consent
request_ai_consent-Once p o k =
    let c = give_to-counts k p.pending false 0 (record p { pending = none }) refl in
    unfold answer_ai_consent in ground (arith, c.0, c.2, o k)

fire_first-Once : (l : List (ℕ × Bool)) (p : Prompt) → p.later ≡ l → Once p → Once (fire_first l p)
fire_first-Once [] p e o k = o k
fire_first-Once ((j, b) ∷ l) p e o k =
    let now : count k p.later ≡ (if j == k then 1 else 0) + count k l = rw e refl in
    omega (arith, now, o k)

count-rotate : (k : ℕ) (l : List (ℕ × Bool)) → count k (rotate l) ≡ count k l
count-rotate k [] = refl
count-rotate k ((j, b) ∷ l) = omega (arith, count-append k l ((j, b) ∷ []))

step-Once : (e : Event) (p : Prompt) → Once p → Once (step e p)
unfolding step
step-Once requested p o k = request_ai_consent-Once p o k
step-Once timer_fired p o k = fire_first-Once p.later p refl o k
step-Once other_timer p o k = omega (arith, count-rotate k p.later, o k)
step-Once (answered allowed delay_ms) p o k = answer_ai_consent-Once allowed delay_ms p o k

run-Once : (es : List Event) (p : Prompt) → Once p → Once (run es p)
unfolding run
run-Once [] p o = o
run-Once (e ∷ es) p o = run-Once es (step e p) (step-Once e p o)

abbrev pub unasked : Prompt
unasked = record { pending = none; made = 0; later = []; answers = [] }

-- However requests, answers with and without delay, and timers follow one another, each request
-- made is still waiting, or has one answer on its way, or was answered, and never two of these.
pub run-unasked-Once : (es : List Event) → Once (run es unasked)
run-unasked-Once es = run-Once es unasked (λ k. ground arith)

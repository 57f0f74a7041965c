-- ===== src/Budget/Settings/Stops.antt =====
-- Where a save of the budget settings stops.
use grocery_genie.Base.{
  nat_eq, string_eq, is_empty, ℕ, suc, ◌<◌, String, ◌≡◌, ◌≢◌, ◌⊎◌, eq_iff, refl, sym, ap, ◌∙◌, inl,
  inr, Bool, false, not, ◌||◌, Option, none, some, List, [], ◌∷◌, arith, ltb, ◌==◌, if◌then◌else◌,
  ltb→lt, Bool-cases, if_cases, or_else, is_some, length, length-append,
}
use grocery_genie.Errors.{Thrown, api_error_code, is_text}
use grocery_genie.Reports.Download.{is_premium_required}
use grocery_genie.Budget.Settings.{
  Budget, saved_for, lookup, Form, Call, delete, Answer, done, refused, error_of, Progress, begun,
  clamped, same_switch, note_id, note_created, rolls_over, Outcome, went_back, paywall, alerted,
  outcome_of, Numerals, clamped_start_day, send, send_create, save_overall, save_category,
  save_categories, save_rollovers, save_all, handle_save,
}

unfailed : (o : Option Thrown) → is_some o ≡ false → o ≡ none
unfailed none h = refl
unfailed (some e) h = ground (arith, h)

-- Where the screen ends for an error, told from its code.
abbrev pub EndsWith : Option Thrown → Outcome → Type 0
EndsWith none o = o ≡ went_back
EndsWith (some e) o =
    ((api_error_code e ≡ some "premium_required") × (o ≡ paywall))
    ⊎ ((api_error_code e ≢ some "premium_required") × (o ≡ alerted))

outcome_of-EndsWith : (error : Option Thrown) → EndsWith error (outcome_of error)
unfolding outcome_of is_premium_required
outcome_of-EndsWith none = refl
outcome_of-EndsWith (some e) = said (api_error_code e)
  where
    said :
        (code : Option String)
        → let o = if is_text code "premium_required" then paywall else alerted in
          ((code ≡ some "premium_required") × (o ≡ paywall))
          ⊎ ((code ≢ some "premium_required") × (o ≡ alerted))
    said none = ground arith
    said (some t) = ground (arith, eq_iff t "premium_required")

module _ (nums : Numerals) (answer : ℕ → Answer) where
  -- Each call but the last was not refused, and the error is that of the last one.
  abbrev pub StopsAtError : List Call → Option Thrown → Type 0
  StopsAtError calls error =
      ((n : ℕ) → length calls ≡ suc n → error ≡ error_of (answer n))
      × ((m : ℕ) → suc m < length calls → error_of (answer m) ≡ none)
      × (length calls ≡ 0 → error ≡ none)

  unfoldable Stops : Progress → Type 0
  Stops p = StopsAtError p.calls p.error

  send-Stops : (c : Call) (p : Progress) → Stops p → Stops (send nums answer c p)
  unfolding send Stops
  send-Stops c p h =
      if_cases (is_some p.error) Stops (λ stopped. h)
        (λ going.
          let longer = length-append p.calls (c ∷ []) in
          (
            λ n e. ap (λ k. error_of (answer k)) (omega (arith, e, longer)),
            λ m later. elim (Bool-cases (ltb (suc m) (length p.calls))) [
              | inl before ↦ h.1 m (ltb→lt (suc m) (length p.calls) before)
              | inr at ↦ sym (h.0 m (ground (arith, at, later, longer))) ∙ unfailed p.error going
            ],
            λ e. ground (arith, e, longer),
          ))

  note_id-Stops : (k i : String) (p : Progress) → Stops p → Stops (note_id k i p)
  unfolding note_id Stops
  note_id-Stops k i p h = if_cases (is_some p.error) Stops (λ stopped. h) (λ going. h)

  note_created-Stops :
      (k : String) (a : Answer) (p : Progress) → Stops p → Stops (note_created k a p)
  unfolding note_created
  note_created-Stops k (refused e) p h = h
  note_created-Stops k (done none) p h = h
  note_created-Stops k (done (some i)) p h =
      if_cases (is_empty i) Stops (λ empty. h) (λ given. note_id-Stops k i p h)

  send_create-Stops :
      (k : String) (c : Call) (p : Progress) → Stops p → Stops (send_create nums answer k c p)
  unfolding send_create
  send_create-Stops k c p h = note_created-Stops k (answer (length p.calls)) _ (send-Stops c p h)

  save_overall-Stops :
      (wanted day : ℕ) (o : Option Budget) (p : Progress)
      → Stops p
      → Stops (save_overall nums answer wanted day o p)
  unfolding save_overall
  save_overall-Stops wanted day none p h =
      if_cases (ltb 0 wanted) Stops (λ new. send_create-Stops "" _ p h) (λ blank. h)
  save_overall-Stops wanted day (some b) p h = note_id-Stops "" b.id _ (
      if_cases
        (not ((if ltb 0 wanted then wanted else b.amount) == b.amount)
          || not (day == clamped (nums.read_day (nums.day_text b.start_day))))
        Stops (λ changed. send-Stops _ p h) (λ same. h))

  save_category-Stops :
      (day : ℕ) (k : String) (wanted : ℕ) (o : Option Budget) (p : Progress)
      → Stops p
      → Stops (save_category nums answer day k wanted o p)
  unfolding save_category
  save_category-Stops day k wanted none p h =
      if_cases (ltb 0 wanted) Stops (λ new. send_create-Stops k _ p h) (λ blank. h)
  save_category-Stops day k wanted (some b) p h =
      if_cases (wanted == 0) Stops (λ gone. send-Stops (delete b.id) p h)
        (λ kept.
          note_id-Stops k b.id _
            (if_cases (wanted == b.amount) Stops (λ same. h) (λ changed. send-Stops _ p h)))

  save_categories-Stops :
      (day : ℕ) (budgets : List Budget) (ps : List (String × String)) (p : Progress)
      → Stops p
      → Stops (save_categories nums answer day budgets ps p)
  unfolding save_categories
  save_categories-Stops day budgets [] p h = h
  save_categories-Stops day budgets ((k, t) ∷ ps) p h =
      save_categories-Stops day budgets ps _
        (save_category-Stops day k (nums.parse_amount t) (saved_for k budgets) p h)

  save_rollovers-Stops :
      (switches : List (String × Bool)) (budgets : List Budget) (ps : List (String × String))
      (p : Progress)
      → Stops p
      → Stops (save_rollovers nums answer switches budgets ps p)
  unfolding save_rollovers
  save_rollovers-Stops switches budgets [] p h = h
  save_rollovers-Stops switches budgets ((k, i) ∷ ps) p h =
      save_rollovers-Stops switches budgets ps _ (
        if_cases
          (same_switch (or_else (lookup k switches) false) (rolls_over (saved_for k budgets))) Stops
          (λ same. h) (λ changed. send-Stops _ p h))

  -- A save of the settings stops at the first call that is refused: no call before it was refused,
  -- none comes after it, and the screen goes back if no call was refused, offers Premium if the
  -- refusal has the code premium_required, and shows the alert if it has another or none.
  pub handle_save-StopsAtError :
      (is_premium : Bool) (form : Form) (budgets : List Budget)
      → let r = handle_save nums answer is_premium form budgets in
        (error : Option Thrown) × StopsAtError r.0 error × EndsWith error r.1
  unfolding handle_save save_all
  handle_save-StopsAtError is_premium form budgets =
      let day = clamped_start_day nums form.start_day in
      let limits = save_categories-Stops day budgets form.cat_amounts _ (
        save_overall-Stops (nums.parse_amount form.overall) day (saved_for "" budgets) begun (
          unfold Stops in
          (λ n e. ground (arith, e), λ m later. ground (arith, later), λ e. refl))) in
      (
        (save_all nums answer is_premium form budgets).error,
        unfold Stops in
            if_cases is_premium Stops
              (λ premium. save_rollovers-Stops form.rollover budgets _ _ limits) (λ free. limits),
        outcome_of-EndsWith (save_all nums answer is_premium form budgets).error,
      )

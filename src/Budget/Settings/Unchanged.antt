-- ===== src/Budget/Settings/Unchanged.antt =====
-- What a save of the budget settings leaves alone.
use grocery_genie.Base.{
  nat_eq, string_eq, ℕ, ◌<◌, String, ◌≡◌, refl, sym, subst, ◌∙◌, ◌≢◌, Bool, true, false, not, ◌||◌,
  Option, none, some, List, [], ◌∷◌, map, arith, str_eq, eq_iff, eq_refl, ltb, ◌==◌, if◌then◌else◌,
  if_cases, or_else, is_some, select, find, All, All-map,
}
use grocery_genie.Budget.Settings.{
  Budget, key_of, saved_for, put, lookup, from_entries, Answer, Progress, begun, is_overall,
  of_category, clamped, same_switch, note_id, rolls_over, went_back, outcome_of, Numerals,
  clamped_start_day, start_day_of, overall_text, amount_entry, rollover_entry, prefill, send,
  save_overall, save_category, save_categories, save_rollovers, save_all, handle_save,
}

-- Budgets as the server keeps them: limits above 0, one for each category and one overall.
abbrev pub AreSaved : List Budget → Type 0
AreSaved [] = Unit
AreSaved (b ∷ bs) =
    (0 < b.amount) × (b.category_id ≢ some "") × All (λ c. key_of c ≢ key_of b) bs × AreSaved bs

-- The texts of the inputs are read as what they print, and an empty text is read as 0.
pub record ReadsBack (nums : Numerals) : Type 0 where
  pub amounts : (n : ℕ) → nums.parse_amount (nums.amount_text n) ≡ n
  pub no_amount : nums.parse_amount "" ≡ 0

lookup-put :
    {V : Type 0} (k l : String) (v : V) (ps : List (String × V))
    → lookup k (put l v ps) ≡ (if str_eq l k then some v else lookup k ps)
unfolding lookup put
lookup-put k l v [] = refl
lookup-put k l v ((m, w) ∷ ps) =
    if_cases (str_eq m l)
      (λ qs.
        lookup k qs ≡ (if str_eq l k then some v else if str_eq m k then some w else lookup k ps))
      (λ same.
        subst
          (λ n.
            (if str_eq m k then some v else lookup k ps)
            ≡ (if str_eq n k then some v else if str_eq m k then some w else lookup k ps))
          ((eq_iff m l).0 same) (ground arith))
      (λ other. ground (arith, lookup-put k l v ps, other, eq_iff m k, eq_iff l k, eq_iff m l))

abbrev switch_or : Option Budget → Option Bool → Option Bool
switch_or none o = o
switch_or (some b) o = some b.rollover_enabled

switch_or-later :
    (o : Option Budget) (b : Budget) (c : Bool) (x : Option Bool)
    → switch_or o (if c then some b.rollover_enabled else x)
      ≡ switch_or (if is_some o then o else if c then some b else none) x
switch_or-later none b true x = refl
switch_or-later none b false x = refl
switch_or-later (some a) b c x = refl

switch_or-agrees :
    (o : Option Budget) → same_switch (or_else (switch_or o none) false) (rolls_over o) ≡ true
switch_or-agrees none = refl
switch_or-agrees (some b) = ground arith

lookup-from_entries :
    (nums : Numerals) (k : String) (bs : List Budget) (acc : List (String × Bool))
    → lookup k (from_entries acc (map (rollover_entry nums) bs))
      ≡ switch_or (saved_for k bs) (lookup k acc)
unfolding from_entries saved_for
lookup-from_entries nums k [] acc = refl
lookup-from_entries nums k (b ∷ bs) acc =
    lookup-from_entries nums k bs (put (key_of b) b.rollover_enabled acc)
    ∙ rw (lookup-put k (key_of b) b.rollover_enabled acc)
        (switch_or-later (saved_for k bs) b (str_eq (key_of b) k) (lookup k acc))

All-put :
    {V : Type 0} (P : String × V → Type 0) (k : String) (v : V) (ps : List (String × V))
    → P (k, v)
    → All P ps
    → All P (put k v ps)
unfolding put
All-put P k v [] h hs = (h, tt)
All-put P k v ((l, w) ∷ ps) h hs =
    if_cases (str_eq l k) (All P)
      (λ same. (subst (λ m. P (m, v)) (sym ((eq_iff l k).0 same)) h, hs.1))
      (λ other. (hs.0, All-put P k v ps h hs.1))

All-from_entries :
    {V : Type 0} (P : String × V → Type 0) (ps acc : List (String × V))
    → All P acc
    → All P ps
    → All P (from_entries acc ps)
unfolding from_entries
All-from_entries P [] acc ha hp = ha
All-from_entries P ((k, v) ∷ ps) acc ha hp =
    All-from_entries P ps (put k v acc) (All-put P k v acc hp.0 ha) hp.1

saved_for-absent :
    (k : String) (bs : List Budget) → All (λ c. key_of c ≢ k) bs → saved_for k bs ≡ none
unfolding saved_for
saved_for-absent k [] h = refl
saved_for-absent k (b ∷ bs) h =
    rw (saved_for-absent k bs h.1) ground (arith, eq_iff (key_of b) k, h.0)

saved_for-own : (bs : List Budget) → AreSaved bs → All (λ b. saved_for (key_of b) bs ≡ some b) bs
saved_for-own [] h = tt
saved_for-own (b ∷ bs) (positive, named, own, later) = (
  unfold saved_for in rw (saved_for-absent (key_of b) bs own, eq_refl (key_of b)) refl,
  All-map (λ c. saved_for (key_of c) bs ≡ some c) (λ c. saved_for (key_of c) (b ∷ bs) ≡ some c)
      (λ c found. unfold saved_for in rw found refl) bs (saved_for-own bs later),
)

find-is_overall : (bs : List Budget) → AreSaved bs → find is_overall bs ≡ saved_for "" bs
unfolding saved_for
find-is_overall [] h = refl
find-is_overall (b ∷ bs) (positive, named, own, later) = ground (
  arith,
  find-is_overall bs later,
  saved_for-absent (key_of b) bs own,
  eq_iff (key_of b) "",
  named,
)

-- Nothing was sent so far.
abbrev Quiet : Progress → Type 0
Quiet p = (p.calls ≡ []) × (p.error ≡ none)

-- The text of a category is the amount of its saved budget.
abbrev IsEntry : Numerals → List Budget → String × String → Type 0
IsEntry nums budgets (k, t) =
    (b : Budget) × (saved_for k budgets ≡ some b) × (t ≡ nums.amount_text b.amount) × (0 < b.amount)

note_id-Quiet : (k i : String) (p : Progress) → Quiet p → Quiet (note_id k i p)
unfolding note_id
note_id-Quiet k i p q = if_cases (is_some p.error) Quiet (λ stopped. q) (λ going. q)

Quiet-outcome : (p : Progress) → Quiet p → (p.calls ≡ []) × (outcome_of p.error ≡ went_back)
unfolding outcome_of
Quiet-outcome p q = (q.0, rw (q.1) refl)

module _ (nums : Numerals) (answer : ℕ → Answer) where
  save_category-Quiet :
      (day : ℕ) (k t : String) (budgets : List Budget) (p : Progress)
      → ReadsBack nums
      → IsEntry nums budgets (k, t)
      → Quiet p
      → Quiet (save_category nums answer day k (nums.parse_amount t) (saved_for k budgets) p)
  unfolding save_category
  save_category-Quiet day k t budgets p reads (b, found, text, positive) q =
      rw (found, text, reads.amounts b.amount)
        (if_cases (b.amount == 0) Quiet (λ gone. ground (arith, gone, positive))
          (λ kept. note_id-Quiet k b.id _ (
            if_cases (b.amount == b.amount) Quiet (λ same. q)
              (λ differs. ground (arith, differs)))))

  save_categories-Quiet :
      (day : ℕ) (budgets : List Budget) (ps : List (String × String)) (p : Progress)
      → ReadsBack nums
      → All (IsEntry nums budgets) ps
      → Quiet p
      → Quiet (save_categories nums answer day budgets ps p)
  unfolding save_categories
  save_categories-Quiet day budgets [] p reads h q = q
  save_categories-Quiet day budgets ((k, t) ∷ ps) p reads h q =
      save_categories-Quiet day budgets ps _ reads h.1
        (save_category-Quiet day k t budgets p reads h.0 q)

  save_rollovers-Quiet :
      (budgets : List Budget) (ps : List (String × String)) (p : Progress)
      → Quiet p
      → Quiet (
          save_rollovers nums answer
            (from_entries [] (map (rollover_entry nums) budgets))
            budgets
            ps
            p)
  unfolding save_rollovers lookup
  save_rollovers-Quiet budgets [] p q = q
  save_rollovers-Quiet budgets ((k, i) ∷ ps) p q =
      let switches = from_entries [] (map (rollover_entry nums) budgets) in
      let agree : same_switch (or_else (lookup k switches) false) (rolls_over (saved_for k budgets))
          ≡ true =
        rw (lookup-from_entries nums k budgets []) (switch_or-agrees (saved_for k budgets)) in
      if_cases (same_switch (or_else (lookup k switches) false) (rolls_over (saved_for k budgets)))
        (λ p'. Quiet (save_rollovers nums answer switches budgets ps p'))
        (λ same. save_rollovers-Quiet budgets ps p q) (λ differs. ground (arith, differs, agree))

  save_overall-Quiet :
      (o : Option Budget) (p : Progress)
      → ReadsBack nums
      → Quiet p
      → Quiet (
          save_overall nums answer
            (nums.parse_amount (overall_text nums o))
            (clamped_start_day nums (start_day_of nums o))
            o
            p)
  unfolding save_overall clamped_start_day clamped send
  save_overall-Quiet none p reads q = rw reads.no_amount q
  save_overall-Quiet (some b) p reads q = rw (reads.amounts b.amount) (
      note_id-Quiet "" b.id _ (
        if_cases
          (not ((if ltb 0 b.amount then b.amount else b.amount) == b.amount)
            || not (
                clamped (nums.read_day (nums.day_text b.start_day))
                == clamped (nums.read_day (nums.day_text b.start_day))))
          Quiet (λ changed. ground (arith, changed)) (λ same. q)))

  entries :
      (budgets bs : List Budget)
      → All (λ b. saved_for (key_of b) budgets ≡ some b) bs
      → AreSaved bs
      → All (IsEntry nums budgets) (map (amount_entry nums) (select of_category bs))
  entries budgets [] found h = tt
  entries budgets (b ∷ bs) found (positive, named, own, later) =
      if_cases (of_category b) (λ cs. All (IsEntry nums budgets) (map (amount_entry nums) cs))
        (λ of. ((b, found.0, refl, positive), entries budgets bs found.1 later))
        (λ overall. entries budgets bs found.1 later)

  save_all-Quiet :
      (is_premium : Bool) (budgets : List Budget)
      → ReadsBack nums
      → AreSaved budgets
      → Quiet (save_all nums answer is_premium (prefill nums budgets) budgets)
  unfolding save_all prefill
  save_all-Quiet is_premium budgets reads saved =
      let start : Quiet (
          save_overall nums answer (nums.parse_amount (overall_text nums (find is_overall budgets)))
            (clamped_start_day nums (start_day_of nums (find is_overall budgets)))
            (saved_for "" budgets) begun) =
        subst
          (λ o. Quiet (
            save_overall nums answer (nums.parse_amount (overall_text nums o))
              (clamped_start_day nums (start_day_of nums o)) (saved_for "" budgets) begun))
          (sym (find-is_overall budgets saved))
          (save_overall-Quiet (saved_for "" budgets) begun reads (refl, refl)) in
      let all =
        All-from_entries (IsEntry nums budgets)
          (map (amount_entry nums) (select of_category budgets)) [] tt
          (entries budgets budgets (saved_for-own budgets saved) saved) in
      let day = clamped_start_day nums (start_day_of nums (find is_overall budgets)) in
      let limits = save_categories-Quiet day budgets _ _ reads all start in
      if_cases is_premium Quiet (λ premium. save_rollovers-Quiet budgets _ _ limits)
        (λ free. limits)

  -- Saving the settings as they were filled in from the saved budgets sends nothing and goes back,
  -- whatever the server would answer: limits, the start day and the switches are all seen as
  -- unchanged. The saved budgets have limits above 0 and keys of their own, and an amount is read
  -- back from the text that shows it.
  pub prefill-handle_save :
      (is_premium : Bool) (budgets : List Budget)
      → ReadsBack nums
      → AreSaved budgets
      → let r = handle_save nums answer is_premium (prefill nums budgets) budgets in
        (r.0 ≡ []) × (r.1 ≡ went_back)
  unfolding handle_save
  prefill-handle_save is_premium budgets reads saved =
      Quiet-outcome (save_all nums answer is_premium (prefill nums budgets) budgets)
        (save_all-Quiet is_premium budgets reads saved)

-- ===== src/Scan/Attempts/Guard.antt =====
-- The guard that the phase puts on imports, through each way that one goes on or ends.
use grocery_genie.Base.{
  nat_eq, string_eq, ℕ, ◌≡◌, refl, sym, subst, ◌∙◌, ◌≢◌, ◌⊎◌, inl, inr, Bool, true, false, none,
  arith, ◌==◌, if◌then◌else◌, ==_iff, Bool-cases, if_cases,
}
use grocery_genie.Scan.Import.{
  PickOutcome, canceled, rejected, picked, ImportResult, import_canceled, queued, consent_required,
  over_quota, bad_file, failed_with, ready,
}
use grocery_genie.Scan.Attempts.{
  Phase, idle, busy, picking, Stage, asking, choosing, asking_again, over, uploading, Importer, at,
  finally, conclude, after_pick, chosen, attempt_failed,
}

-- What the phase and the newest attempt say of an import that waits at this stage: only the newest
-- one uploads or asks for the consent with which an import begins, and then the phase is `busy`, so
-- that a tap does nothing. Of one that asks again, after the server refused, nothing is said.
abbrev pub Guarded : ℕ → Phase → ℕ → Stage → Type 0
Guarded a p k asking = (k ≡ a) × (p ≡ busy)
Guarded a p k (uploading r) = (k ≡ a) × (p ≡ busy)
Guarded a p k choosing = (k ≢ a) ⊎ (p ≡ picking)
Guarded a p k asking_again = Unit
Guarded a p k over = Unit

abbrev pub is_uploading : Stage → Bool
is_uploading (uploading r) = true
is_uploading _ = false

pub record Inv (s : Importer) : Type 0 where
  pub guarded : (k : ℕ) → Guarded s.attempt s.phase k (s.stages k)
  pub shows : (s.progress ≡ none) ⊎ (is_uploading (s.stages s.attempt) ≡ true)

pub Guarded-other :
    (a k : ℕ) (p p' : Phase) (st : Stage) → k ≢ a → Guarded a p k st → Guarded a p' k st
Guarded-other a k p p' asking n g = absurd (n g.0)
Guarded-other a k p p' (uploading r) n g = absurd (n g.0)
Guarded-other a k p p' choosing n g = inl n
Guarded-other a k p p' asking_again n g = tt
Guarded-other a k p p' over n g = tt

-- The other imports are guarded.
abbrev pub Others : Importer → ℕ → Type 0
Others s n = (k : ℕ) → k ≢ n → Guarded s.attempt s.phase k (s.stages k)

pub move :
    (a n : ℕ) (p p' : Phase) (st : Stage) (stages : ℕ → Stage)
    → ((k : ℕ) → k ≢ n → Guarded a p k (stages k))
    → Guarded a p' n st
    → (p' ≡ p) ⊎ (n ≡ a)
    → (k : ℕ) → Guarded a p' k (at n st stages k)
move a n p p' st stages others g how k = elim (Bool-cases (k == n)) [
  | inl same ↦
      let there : n ≡ k = ground (arith, ==_iff k n) in
      rw same (subst (λ j. Guarded a p' j st) there g)
  | inr apart ↦
      let away : k ≢ n = ground (arith, ==_iff k n) in
      rw apart (elim how [
        | inl still ↦ subst (λ q. Guarded a q k (stages k)) (sym still) (others k away)
        | inr newest ↦
            Guarded-other a k p p' (stages k) (λ e. away (e ∙ sym newest)) (others k away)
      ])
]

pub finally-Inv :
    (n : ℕ) (s : Importer)
    → Others s n
    → (s.progress ≡ none) ⊎ (is_uploading (at n over s.stages s.attempt) ≡ true)
    → Inv (finally n s)
unfolding finally
finally-Inv n s others shows = record {
  guarded =
      move s.attempt n s.phase (if n == s.attempt then idle else s.phase) over s.stages others tt
        (elim (Bool-cases (n == s.attempt)) [
          | inl same ↦ inr (ground (arith, ==_iff n s.attempt))
          | inr apart ↦ rw apart (inl refl)
        ]);
  shows = shows;
}

pub conclude-Inv :
    (n : ℕ) (r : ImportResult) (s : Importer)
    → Others s n
    → (n ≡ s.attempt) ⊎ (r ≡ import_canceled)
    → Inv (conclude n r s)
unfolding conclude
conclude-Inv n (ready i preview) s others how = finally-Inv n _ others (inl refl)
conclude-Inv n consent_required s others how = elim how [
  | inl newest ↦ record {
    guarded = move s.attempt n s.phase idle asking_again s.stages others tt (inr newest);
    shows = inl refl;
  }
  | inr other_result ↦ absurd (ground arith)
]
conclude-Inv n import_canceled s others how = finally-Inv n _ others (inl refl)
conclude-Inv n queued s others how = finally-Inv n _ others (inl refl)
conclude-Inv n over_quota s others how = finally-Inv n _ others (inl refl)
conclude-Inv n (bad_file p) s others how = finally-Inv n _ others (inl refl)
conclude-Inv n (failed_with m) s others how = finally-Inv n _ others (inl refl)

pub after_pick-Inv :
    (n : ℕ) (o : PickOutcome) (s : Importer)
    → Others s n
    → n ≡ s.attempt
    → s.phase ≡ busy
    → Inv (after_pick n o s)
unfolding after_pick
after_pick-Inv n canceled s others newest b = conclude-Inv n import_canceled s others (inr refl)
after_pick-Inv n (rejected p) s others newest b = conclude-Inv n (bad_file p) s others (inl newest)
after_pick-Inv n (picked r) s others newest b = record {
  guarded = move s.attempt n s.phase s.phase (uploading r) s.stages others (newest, b) (inl refl);
  shows = inr (ground (arith, ==_iff s.attempt n));
}

pub chosen-Inv : (n : ℕ) (o : PickOutcome) (s : Importer) → Inv s → Inv (chosen n o s)
unfolding chosen
chosen-Inv n o s v =
    if_cases (n == s.attempt) Inv
      (λ same.
        let newest : n ≡ s.attempt = ground (arith, ==_iff n s.attempt) in
        after_pick-Inv n o (record s { phase = busy })
          (λ k away.
            Guarded-other s.attempt k s.phase busy (s.stages k) (λ e. away (e ∙ sym newest))
              (v.guarded k))
          newest refl)
      (λ apart. conclude-Inv n import_canceled s (λ k away. v.guarded k) (inr refl))

pub attempt_failed-Inv : (n : ℕ) (s : Importer) → Inv s → Inv (attempt_failed n s)
unfolding attempt_failed
attempt_failed-Inv n s v =
    if_cases (n == s.attempt) Inv
      (λ same.
        finally-Inv n (record s { progress = none; shown = _ }) (λ k away. v.guarded k) (inl refl))
      (λ apart. record {
        guarded =
            move s.attempt n s.phase s.phase over s.stages (λ k away. v.guarded k) tt (inl refl);
        shows = ground (arith, v.shows, ==_iff s.attempt n, ==_iff n s.attempt);
      })

-- ===== src/Scan/Attempts/Single.antt =====
-- One import uploads at a time.
use grocery_genie.Base.{
  nat_eq, string_eq, ℕ, suc, ◌≡◌, refl, ap, subst, ◌∙◌, ◌≢◌, ◌⊎◌, inl, inr, Bool, true, false, none,
  List, [], ◌∷◌, arith, ◌==◌, ==_iff, Bool-cases,
}
use grocery_genie.Scan.Submission.{Surroundings}
use grocery_genie.Scan.Import.{PickOutcome, Upload}
use grocery_genie.Scan.Attempts.{
  Phase, idle, busy, picking, Stage, asking, choosing, asking_again, over, uploading, Importer, at,
  start_import, tap_in, tap, consented, answered, Event, tapped, consent_given, file_chosen,
  wait_failed, consent_asked, upload_over, consent_step, choice_step, throw_step, again_step,
  upload_step, step, run,
}
use grocery_genie.Scan.Attempts.Guard.{
  Guarded, is_uploading, Inv, move, finally-Inv, conclude-Inv, chosen-Inv, attempt_failed-Inv,
}

-- A stage that is not an upload leaves `progress` unset when it is the newest's.
quiet :
    (n : ℕ) (st to : Stage) (s : Importer)
    → Inv s
    → s.stages n ≡ st
    → is_uploading st ≡ false
    → (s.progress ≡ none) ⊎ (is_uploading (at n to s.stages s.attempt) ≡ true)
quiet n st to s v e q = elim v.shows [
  | inl unset ↦ inl unset
  | inr up ↦ elim (Bool-cases (s.attempt == n)) [
    | inl same ↦
        let there : s.attempt ≡ n = ground (arith, ==_iff s.attempt n) in
        let loud : is_uploading st ≡ true =
          subst (λ x. is_uploading x ≡ true) (ap s.stages there ∙ e) up in
        absurd (ground arith)
    | inr apart ↦ rw apart (inr up)
  ]
]

Guarded-new :
    (a k : ℕ) (p : Phase) (st : Stage)
    → p ≢ busy
    → k ≢ suc a
    → Guarded a p k st
    → Guarded (suc a) busy k st
Guarded-new a k p asking free away g = absurd (free g.1)
Guarded-new a k p (uploading r) free away g = absurd (free g.1)
Guarded-new a k p choosing free away g = inl away
Guarded-new a k p asking_again free away g = tt
Guarded-new a k p over free away g = tt

uploading-busy :
    (a k : ℕ) (p : Phase) (st : Stage) → is_uploading st ≡ true → Guarded a p k st → p ≡ busy
uploading-busy a k p (uploading r) u g = g.1
uploading-busy a k p asking u g = g.1
uploading-busy a k p choosing u g = absurd (ground arith)
uploading-busy a k p asking_again u g = absurd (ground arith)
uploading-busy a k p over u g = absurd (ground arith)

start_import-Inv : (s : Importer) → Inv s → s.phase ≢ busy → Inv (start_import s)
unfolding start_import
start_import-Inv s v free = record {
  guarded = λ k. elim (Bool-cases (k == suc s.attempt)) [
    | inl same ↦ rw same (ground (arith, ==_iff k (suc s.attempt)), refl)
    | inr apart ↦ rw apart (
        Guarded-new s.attempt k s.phase (s.stages k) free (ground (arith, ==_iff k (suc s.attempt)))
          (v.guarded k))
  ];
  shows = elim v.shows [
    | inl unset ↦ inl unset
    | inr up ↦ absurd (
        free (
          uploading-busy s.attempt s.attempt s.phase (s.stages s.attempt) up (v.guarded s.attempt)))
  ];
}

tap_in-Inv : (p : Phase) (s : Importer) → s.phase ≡ p → Inv s → Inv (tap_in p s)
unfolding tap_in
tap_in-Inv busy s e v = v
tap_in-Inv idle s e v = start_import-Inv s v (λ k. cc)
tap_in-Inv picking s e v = start_import-Inv s v (λ k. cc)

consent_step-Inv :
    (n : ℕ) (allowed : Bool) (st : Stage) (s : Importer)
    → s.stages n ≡ st
    → Inv s
    → Inv (consent_step n allowed st s)
unfolding consent_step consented
consent_step-Inv n true asking s e v =
    let now : Guarded s.attempt s.phase n asking =
      subst (Guarded s.attempt s.phase n) e (v.guarded n) in
    record {
      guarded =
          move s.attempt n s.phase picking choosing s.stages (λ k away. v.guarded k) (inr refl)
            (inr now.0);
      shows = quiet n asking choosing s v e refl;
    }
consent_step-Inv n false asking s e v =
    finally-Inv n s (λ k away. v.guarded k) (quiet n asking over s v e refl)
consent_step-Inv n allowed choosing s e v = v
consent_step-Inv n allowed asking_again s e v = v
consent_step-Inv n allowed over s e v = v
consent_step-Inv n allowed (uploading r) s e v = v

choice_step-Inv :
    (n : ℕ) (o : PickOutcome) (st : Stage) (s : Importer) → Inv s → Inv (choice_step n o st s)
unfolding choice_step
choice_step-Inv n o choosing s v = chosen-Inv n o s v
choice_step-Inv n o asking s v = v
choice_step-Inv n o asking_again s v = v
choice_step-Inv n o over s v = v
choice_step-Inv n o (uploading r) s v = v

throw_step-Inv : (n : ℕ) (st : Stage) (s : Importer) → Inv s → Inv (throw_step n st s)
unfolding throw_step
throw_step-Inv n choosing s v = attempt_failed-Inv n s v
throw_step-Inv n asking s v = attempt_failed-Inv n s v
throw_step-Inv n asking_again s v = attempt_failed-Inv n s v
throw_step-Inv n over s v = v
throw_step-Inv n (uploading r) s v = v

again_step-Inv :
    (n : ℕ) (st : Stage) (s : Importer) → s.stages n ≡ st → Inv s → Inv (again_step n st s)
unfolding again_step
again_step-Inv n asking_again s e v =
    finally-Inv n s (λ k away. v.guarded k) (quiet n asking_again over s v e refl)
again_step-Inv n asking s e v = v
again_step-Inv n choosing s e v = v
again_step-Inv n over s e v = v
again_step-Inv n (uploading r) s e v = v

upload_step-Inv :
    (w : Surroundings) (n : ℕ) (u : Upload) (st : Stage) (s : Importer)
    → s.stages n ≡ st
    → Inv s
    → Inv (upload_step w n u st s)
unfolding upload_step answered
upload_step-Inv w n u (uploading r) s e v =
    let now : Guarded s.attempt s.phase n (uploading r) =
      subst (Guarded s.attempt s.phase n) e (v.guarded n) in
    conclude-Inv n _ _ (λ k away. v.guarded k) (inl now.0)
upload_step-Inv w n u asking s e v = v
upload_step-Inv w n u choosing s e v = v
upload_step-Inv w n u asking_again s e v = v
upload_step-Inv w n u over s e v = v

step-Inv : (e : Event) (s : Importer) → Inv s → Inv (step e s)
unfolding step
step-Inv tapped s v = unfold tap in tap_in-Inv s.phase s refl v
step-Inv (consent_given n allowed) s v = consent_step-Inv n allowed (s.stages n) s refl v
step-Inv (file_chosen n o) s v = choice_step-Inv n o (s.stages n) s v
step-Inv (wait_failed n) s v = throw_step-Inv n (s.stages n) s v
step-Inv (consent_asked n) s v = again_step-Inv n (s.stages n) s refl v
step-Inv (upload_over w n u) s v = upload_step-Inv w n u (s.stages n) s refl v

abbrev pub opened : Importer
opened = record {
  phase = idle;
  attempt = 0;
  stages = λ k. over;
  progress = none;
  pending_receipts = [];
  captured_image_uri = none;
  active_scan = none;
  pushed = [];
  marked_required = 0;
  shown = [];
}

run-Inv : (es : List Event) (s : Importer) → Inv s → Inv (run es s)
unfolding run
run-Inv [] s v = v
run-Inv (e ∷ es) s v = run-Inv es (step e s) (step-Inv e s v)

-- However taps, consent answers, picked files and ends of uploads follow one another, only the
-- newest import uploads or asks for the consent with which an import begins, and the screen is then
-- in a phase in which taps do nothing; the upload's progress is shown only while the newest import
-- uploads. An import that asks for consent again, after the server refused, is not covered.
pub run-opened-Inv : (es : List Event) → Inv (run es opened)
run-opened-Inv es = run-Inv es opened (record { guarded = λ k. tt; shows = inl refl })

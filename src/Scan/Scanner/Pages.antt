-- ===== src/Scan/Scanner/Pages.antt =====
-- What becomes of the pages that the document scanner gives.
use grocery_genie.Base.{
  nat_eq, string_eq, ℕ, ◌+◌, ◌≤◌, String, ◌≡◌, refl, inl, inr, Bool, true, false, not, ◌&&◌, ◌||◌,
  Option, none, some, List, [], ◌∷◌, ◌++◌, arith, str_eq, if◌then◌else◌, if_cases, Option-cases,
  length, select,
}
use grocery_genie.Scan.Submission.{Screen, Surroundings, Network, Answer}
use grocery_genie.Scan.Document.{Page, ScanOutcome, page, cancelled, failed}
use grocery_genie.Scan.Scanner.{
  FrameVerdict, PagePrompt, Phase, idle, scanning_page, scoring, checking_network, Scanner, launch,
  scan_returned, page_hints, hold_or_submit, scored, network_checked, launch_ends, retake,
  use_prompt, use_page, cancel, use_answered, upload_answered,
}
use grocery_genie.Scan.Scanner.Steps.{
  Step, focused, blurred, scan_pressed, retake_pressed, use_pressed, cancel_pressed, scan_answers,
  score_answers, launch_network, use_network, upload_answers, takes_taps, held_back, on_scan,
  on_score, on_network, step, run, opened,
}

abbrev pub times : String → List String → ℕ
times u xs = length (select (λ v. str_eq v u) xs)

abbrev one_if : Bool → ℕ
one_if b = if b then 1 else 0

times-snoc :
    (u v : String) (xs : List String) → times u (xs ++ v ∷ []) ≡ times u xs + one_if (str_eq v u)
times-snoc u v [] = ground arith
times-snoc u v (x ∷ xs) = ground (arith, times-snoc u v xs)

abbrev in_phase : String → Phase → ℕ
in_phase u idle = 0
in_phase u scanning_page = 0
in_phase u (scoring p) = one_if (str_eq p.uri u)
in_phase u (checking_network v m) = 0

abbrev in_prompt : String → Option PagePrompt → ℕ
in_prompt u none = 0
in_prompt u (some p) = one_if (str_eq p.uri u)

abbrev pub waits : Phase → Bool
waits idle = false
waits scanning_page = true
waits (scoring p) = true
waits (checking_network u m) = true

-- A page that is being scored, or held back on the screen, may still be submitted or deleted.
abbrev Inv : String → Scanner → Type 0
Inv u s =
    (times u s.submitted
        + times u s.deleted
        + in_phase u s.phase
        + (if s.in_view then in_prompt u s.prompt else 0)
      ≤ times u s.scanned)
    × (s.busy ≡ waits s.phase)
    × (held_back s ≡ true → s.busy ≡ false)

launch-Inv : (u : String) (s : Scanner) → Inv u s → Inv u (launch s)
unfolding launch
launch-Inv u s inv =
    if_cases s.busy (Inv u) (λ busy. inv)
      (λ free. (ground (arith, inv.0, inv.1), refl, ground arith))

focused-Inv : (u : String) (s : Scanner) → Inv u s → Inv u (step focused s)
unfolding step launch
focused-Inv u s inv = ground (arith, inv.0, inv.1, inv.2)

retake-Inv :
    (u : String) (s : Scanner) (p : PagePrompt)
    → s.prompt ≡ some p
    → s.in_view ≡ true
    → Inv u s
    → Inv u (retake s)
unfolding retake launch
retake-Inv u s p held in_view inv =
    ground (arith, times-snoc u p.uri s.deleted, inv.0, inv.1, inv.2)

use_page-Inv : (u : String) (s : Scanner) → s.in_view ≡ true → Inv u s → Inv u (use_page s)
unfolding use_page use_prompt
use_page-Inv u s in_view inv = elim (Option-cases s.prompt) [
  | inl nothing ↦ ground (arith, nothing, inv.0, inv.1, inv.2)
  | inr (p, held) ↦ ground (arith, held, times-snoc u p.uri s.submitted, inv.0, inv.1, inv.2)
]

cancel-Inv :
    (u : String) (asking : Bool) (s : Scanner)
    → s.in_view ≡ true
    → Inv u s
    → Inv u (cancel asking s)
unfolding cancel
cancel-Inv u asking s in_view inv = elim (Option-cases s.prompt) [
  | inl nothing ↦ ground (arith, nothing, inv.0, inv.1, inv.2)
  | inr (p, held) ↦ ground (arith, held, times-snoc u p.uri s.deleted, inv.0, inv.1, inv.2)
]

on_scan-Inv :
    (u : String) (asking : Bool) (o : ScanOutcome) (q : Phase) (s : Scanner)
    → s.phase ≡ q
    → Inv u s
    → Inv u (on_scan asking o q s)
unfolding on_scan scan_returned
on_scan-Inv u asking cancelled scanning_page s at inv = ground (arith, at, inv.0, inv.1, inv.2)
on_scan-Inv u asking failed scanning_page s at inv = ground (arith, at, inv.0, inv.1, inv.2)
on_scan-Inv u asking (page p) scanning_page s at inv =
    ground (arith, at, times-snoc u p.uri s.scanned, inv.0, inv.1, inv.2)
on_scan-Inv u asking o idle s at inv = inv
on_scan-Inv u asking o (scoring p) s at inv = inv
on_scan-Inv u asking o (checking_network v m) s at inv = inv

hold_or_submit-Inv :
    (u : String) (hints : List String) (p : Page) (s : Scanner)
    → s.phase ≡ scoring p
    → Inv u s
    → Inv u (hold_or_submit hints p s)
unfolding hold_or_submit
hold_or_submit-Inv u [] p s at inv =
    ground (arith, at, times-snoc u p.uri s.submitted, inv.0, inv.1, inv.2)
hold_or_submit-Inv u (h ∷ hs) p s at inv = ground (arith, at, inv.0, inv.1, inv.2)

on_score-Inv :
    (u : String) (v : Option FrameVerdict) (q : Phase) (s : Scanner)
    → s.phase ≡ q
    → Inv u s
    → Inv u (on_score v q s)
unfolding on_score scored
on_score-Inv u v (scoring p) s at inv = hold_or_submit-Inv u (page_hints v p) p s at inv
on_score-Inv u v idle s at inv = inv
on_score-Inv u v scanning_page s at inv = inv
on_score-Inv u v (checking_network w m) s at inv = inv

on_network-Inv :
    (u : String) (w : Surroundings) (net : Network) (q : Phase) (s : Scanner)
    → s.phase ≡ q
    → Inv u s
    → Inv u (on_network w net q s)
unfolding on_network launch_ends network_checked
on_network-Inv u w net (checking_network v m) s at inv =
    (ground (arith, at, inv.0), refl, ground arith)
on_network-Inv u w net idle s at inv = inv
on_network-Inv u w net scanning_page s at inv = inv
on_network-Inv u w net (scoring p) s at inv = inv

use_answered-Inv :
    (u : String) (w : Surroundings) (net : Network) (us : List (String × String)) (s : Scanner)
    → s.uses ≡ us
    → Inv u s
    → Inv u (use_answered w net s)
unfolding use_answered network_checked
use_answered-Inv u w net [] s e inv = rw e inv
use_answered-Inv u w net (v ∷ us) s e inv = rw e inv

upload_answered-Inv :
    (u : String) (w : Surroundings) (a : Answer) (v : Option (String × String)) (s : Scanner)
    → Inv u s
    → Inv u (upload_answered w a v s)
unfolding upload_answered
upload_answered-Inv u w a none s inv = inv
upload_answered-Inv u w a (some v) s inv = inv

retake_pressed-Inv : (u : String) (s : Scanner) → Inv u s → Inv u (step retake_pressed s)
unfolding step
retake_pressed-Inv u s inv =
    if_cases (takes_taps s && held_back s) (Inv u)
      (λ both. elim (Option-cases s.prompt) [
        | inl nothing ↦ absurd (ground (arith, both, nothing))
        | inr (p, held) ↦ retake-Inv u s p held (ground (arith, both)) inv
      ])
      (λ no. inv)

step-Inv : (u : String) (x : Step) (s : Scanner) → Inv u s → Inv u (step x s)
step-Inv u focused s inv = focused-Inv u s inv
step-Inv u blurred s inv = unfold step in (ground (arith, inv.0), inv.1, inv.2)
step-Inv u scan_pressed s inv =
    unfold step in
    if_cases (takes_taps s && not (held_back s) && not (s.scanning || s.checking)) (Inv u)
      (λ yes. launch-Inv u s inv) (λ no. inv)
step-Inv u retake_pressed s inv = retake_pressed-Inv u s inv
step-Inv u use_pressed s inv =
    unfold step in
    if_cases (takes_taps s && held_back s) (Inv u)
      (λ yes. use_page-Inv u s (ground (arith, yes)) inv) (λ no. inv)
step-Inv u (cancel_pressed asking) s inv =
    unfold step in
    if_cases (takes_taps s) (Inv u) (λ yes. cancel-Inv u asking s (ground (arith, yes)) inv)
      (λ no. inv)
step-Inv u (scan_answers asking o) s inv = unfold step in on_scan-Inv u asking o s.phase s refl inv
step-Inv u (score_answers v) s inv = unfold step in on_score-Inv u v s.phase s refl inv
step-Inv u (launch_network w net) s inv = unfold step in on_network-Inv u w net s.phase s refl inv
step-Inv u (use_network w net) s inv = unfold step in use_answered-Inv u w net s.uses s refl inv
step-Inv u (upload_answers w a) s inv = unfold step in upload_answered-Inv u w a s.uploading s inv

run-Inv : (u : String) (xs : List Step) (s : Scanner) → Inv u s → Inv u (run xs s)
unfolding run
run-Inv u [] s inv = inv
run-Inv u (x ∷ xs) s inv = run-Inv u xs (step x s) (step-Inv u x s inv)

-- Over any run of the scanner's screen, a page is submitted or deleted no more often than a scan
-- gave it, counted together: one that the user retook or cancelled is not submitted as well. The
-- screen is busy exactly while `launch` waits for an answer, and not while a page is held back.
pub run-opened-Once :
    (u : String) (xs : List Step) (screen : Screen)
    → let s = run xs (opened screen) in
      (times u s.submitted + times u s.deleted ≤ times u s.scanned)
      × (s.busy ≡ waits s.phase)
      × (held_back s ≡ true → s.busy ≡ false)
run-opened-Once u xs screen =
    let inv = run-Inv u xs (opened screen) (unfold opened in (omega arith, refl, ground arith)) in
    (omega (arith, inv.0), inv.1, inv.2)

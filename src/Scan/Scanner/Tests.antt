-- ===== src/Scan/Scanner/Tests.antt =====
-- A run of the document scanner on a small example.
use grocery_genie.Base.{nat_eq, string_eq, ◌+◌, ◌≤◌, String, ◌≡◌, true, false, none, List, [], ◌∷◌}
use grocery_genie.Scan.Submission.{FlowState, Screen}
use grocery_genie.Scan.Document.{ScanOutcome, page}
use grocery_genie.Scan.Scanner.Steps.{
  Step, focused, retake_pressed, use_pressed, scan_answers, score_answers, held_back, run, opened,
}
use grocery_genie.Scan.Scanner.Pages.{times, waits, run-opened-Once}

abbrev screen : Screen
screen = record {
  flow_state = FlowState.ready;
  processing_uri = none;
  error_hint = "";
  attempt_settled = false;
  pending_receipts = [];
  captured_image_uri = none;
  active_scan = none;
  pushed = [];
  consent_asked = 0;
  quota_prompts = 0;
  abandoned = 0;
}

abbrev two_pages : String → ScanOutcome
two_pages u =
    page
      (record { uri = u; mime_type = "image/jpeg"; width = 1000; height = 2000; dropped_pages = 1 })

abbrev visit : List Step
visit =
    focused
    ∷ scan_answers false (two_pages "a")
    ∷ score_answers none
    ∷ retake_pressed
    ∷ scan_answers false (two_pages "b")
    ∷ score_answers none
    ∷ use_pressed
    ∷ []

run-opened-Once_example :
    let s = run visit (opened screen) in
    (times "a" s.submitted + times "a" s.deleted ≤ times "a" s.scanned)
    × (s.busy ≡ waits s.phase)
    × (held_back s ≡ true → s.busy ≡ false)
run-opened-Once_example = run-opened-Once "a" visit screen

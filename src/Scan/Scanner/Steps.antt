-- ===== src/Scan/Scanner/Steps.antt =====
-- The events of the scanner's screen, mobile/app/(tabs)/scan.tsx: taps, answers, and the focus of
-- the tab.
use grocery_genie.Base.{
  nat_eq, string_eq, String, Bool, true, false, not, ◌&&◌, ◌||◌, Option, none, some, List, [], ◌∷◌,
  if◌then◌else◌,
}
use grocery_genie.Scan.Submission.{Screen, Surroundings, Network, Answer, is_processing}
use grocery_genie.Scan.Document.{ScanOutcome}
use grocery_genie.Scan.Scanner.{
  FrameVerdict, Phase, idle, scanning_page, scoring, checking_network, Scanner, launch,
  scan_returned, scored, launch_ends, retake, use_page, cancel, use_answered, upload_answered,
}

pub data Step : Type 0 where
  focused blurred scan_pressed retake_pressed use_pressed : Step
  cancel_pressed : Bool → Step
  scan_answers : Bool → ScanOutcome → Step
  score_answers : Option FrameVerdict → Step
  launch_network use_network : Surroundings → Network → Step
  upload_answers : Surroundings → Answer → Step

abbrev pub is_shown : Option String → Bool
is_shown none = false
is_shown (some u) = true

-- The overlay that hides the buttons while a photo uploads.
abbrev pub overlaid : Screen → Bool
overlaid s = is_processing s.flow_state && is_shown s.processing_uri

abbrev pub takes_taps : Scanner → Bool
takes_taps s = s.in_view && not (overlaid s.submission)

abbrev pub held_back : Scanner → Bool
held_back s = elim (s.prompt) [ none ↦ false | some p ↦ true ]

unfoldable pub on_scan : Bool → ScanOutcome → Phase → Scanner → Scanner
unfolding scan_returned
on_scan asking o scanning_page s = scan_returned asking o s
on_scan asking o idle s = s
on_scan asking o (scoring p) s = s
on_scan asking o (checking_network u m) s = s

unfoldable pub on_score : Option FrameVerdict → Phase → Scanner → Scanner
unfolding scored
on_score v (scoring p) s = scored v p s
on_score v idle s = s
on_score v scanning_page s = s
on_score v (checking_network u m) s = s

unfoldable pub on_network : Surroundings → Network → Phase → Scanner → Scanner
unfolding launch_ends
on_network w net (checking_network u m) s = launch_ends w net u m s
on_network w net idle s = s
on_network w net scanning_page s = s
on_network w net (scoring p) s = s

-- Retake and Use Scan stand beside a page that is held back, Scan where none is; an answer counts
-- where it is awaited.
unfoldable pub step : Step → Scanner → Scanner
unfolding launch retake use_page cancel on_scan on_score on_network use_answered upload_answered
step focused s = launch (record s { in_view = true })
step blurred s = record s { in_view = false }
step scan_pressed s =
    if takes_taps s && not (held_back s) && not (s.scanning || s.checking) then launch s else s
step retake_pressed s = if takes_taps s && held_back s then retake s else s
step use_pressed s = if takes_taps s && held_back s then use_page s else s
step (cancel_pressed asking) s = if takes_taps s then cancel asking s else s
step (scan_answers asking o) s = on_scan asking o s.phase s
step (score_answers v) s = on_score v s.phase s
step (launch_network w net) s = on_network w net s.phase s
step (use_network w net) s = use_answered w net s
step (upload_answers w a) s = upload_answered w a s.uploading s

unfoldable pub run : List Step → Scanner → Scanner
unfolding step
run [] s = s
run (x ∷ xs) s = run xs (step x s)

unfoldable pub opened : Screen → Scanner
opened screen = record {
  submission = screen;
  phase = idle;
  scanning = false;
  checking = false;
  prompt = none;
  busy = false;
  in_view = false;
  uses = [];
  uploading = none;
  scanned = [];
  submitted = [];
  deleted = [];
}

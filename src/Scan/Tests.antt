-- ===== src/Scan/Tests.antt =====
-- Captures and imports on small examples.
use grocery_genie.Base.{
  nat_eq, string_eq, ◌+◌, ◌≤◌, ◌≡◌, refl, ◌≢◌, inr, true, false, none, some, List, [], ◌∷◌,
}
use grocery_genie.Errors.{api, is_quota_exceeded_error, is_retryable_scan_error}
use grocery_genie.Scan.Submission.{
  FlowState, capturing, processing, Screen, Surroundings, Network, connected, Answer, refused,
  capture,
}
use grocery_genie.Scan.Submission.Endings.{IsKept, capture_settles, capture-IsKept}
use grocery_genie.Scan.Submission.Abandonment.{
  captures, leaves, attempts, pill_gone, Happening, happen_all, attempts_in, abandoned-le-attempts,
}
use grocery_genie.Scan.Import.{PickedReceipt, picked}
use grocery_genie.Scan.Attempts as Attempts
use grocery_genie.Scan.Attempts.Guard.{Inv}
use grocery_genie.Scan.Attempts.Single.{opened, run-opened-Inv}
use grocery_genie.Scan.Consent as Consent
use grocery_genie.Scan.Consent.Answers.{Once, unasked, run-unasked-Once}

abbrev signed_in : Surroundings
signed_in = record {
  owner_id = some "ann";
  persisted = some "file:///pending/1.jpg";
  new_id = "pending-1";
  now = "2026-01-02T10:00:00Z";
}

abbrev fresh : Screen
fresh = record {
  flow_state = FlowState.ready;
  processing_uri = none;
  error_hint = "";
  attempt_settled = false;
  pending_receipts = [];
  captured_image_uri = none;
  active_scan = none;
  pushed = [];
  consent_asked = 0;
  quota_prompts = 0;
  abandoned = 0;
}

abbrev outage : Answer
outage = refused (api (record { status = 503; body = none }))

abbrev online : Network
online = connected (some true)

capture_settles_example :
    let s' = capture signed_in online "file:///a.jpg" "image/jpeg" outage fresh in
    (s'.attempt_settled ≡ true) × (s'.flow_state ≢ processing) × (s'.flow_state ≢ capturing)
capture_settles_example = capture_settles signed_in online "file:///a.jpg" "image/jpeg" outage fresh

capture-IsKept_example :
    IsKept "ann" "file:///pending/1.jpg" []
      (capture signed_in online "file:///a.jpg" "image/jpeg" outage fresh).pending_receipts
capture-IsKept_example =
    capture-IsKept signed_in online "file:///a.jpg" "image/jpeg" outage fresh refl refl
      (inr (unfold is_retryable_scan_error is_quota_exceeded_error in refl))

abbrev visit : List Happening
visit =
    leaves false
    ∷ attempts
    ∷ captures signed_in online "file:///a.jpg" "image/jpeg" outage
    ∷ pill_gone
    ∷ leaves false
    ∷ []

abandoned-le-attempts_example : (happen_all visit fresh).abandoned ≤ attempts_in visit + 1
abandoned-le-attempts_example = abandoned-le-attempts visit fresh refl refl

abbrev pdf_file : PickedReceipt
pdf_file = record {
  uri = "file:///r.PDF";
  mime_type = "application/pdf";
  source = grocery_genie.Queue.pdf;
  preview_uri = none;
}

abbrev image : PickedReceipt
image = record {
  uri = "file:///r.PDF";
  mime_type = "image/jpeg";
  source = grocery_genie.Queue.library;
  preview_uri = some "file:///r.PDF";
}

-- The second tap replaces the pick of the first, whose file comes late.
abbrev replaced : List Attempts.Event
replaced =
    Attempts.tapped
    ∷ Attempts.consent_given 1 true
    ∷ Attempts.tapped
    ∷ Attempts.consent_given 2 true
    ∷ Attempts.file_chosen 2 (picked pdf_file)
    ∷ Attempts.file_chosen 1 (picked image)
    ∷ []

late_pick_hides_progress : (Attempts.run replaced opened).progress ≡ none
unfolding Attempts.run Attempts.step
late_pick_hides_progress = refl

run-opened-Inv_example : Inv (Attempts.run replaced opened)
run-opened-Inv_example = run-opened-Inv replaced

abbrev sheets : List Consent.Event
sheets =
    Consent.requested
    ∷ Consent.answered true 500
    ∷ Consent.requested
    ∷ Consent.timer_fired
    ∷ Consent.requested
    ∷ []

run-unasked-Once_example : Once (Consent.run sheets unasked)
run-unasked-Once_example = run-unasked-Once sheets

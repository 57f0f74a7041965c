-- ===== src/Scan/Scanner.antt =====
-- The screen of the document scanner: DocumentScannerCapture of mobile/app/(tabs)/scan.tsx, with
-- what each tap and answer does. The frame score and the network are given by their answers.
pub mod Steps
pub mod Pages
mod Tests
use grocery_genie.Base.{
  Eq, nat_eq, string_eq, option_beq, option_beq_iff, changed, trim, is_empty, ℕ, zero, suc, ◌+◌,
  ◌-◌, ◌*◌, ◌/◌, ◌%◌, ◌≤◌, ◌<◌, String, ◌≡◌, refl, sym, ap, subst, ◌∙◌, ◌≢◌, ◌↔◌, ◌⊎◌, inl, inr,
  Bool, true, false, not, ◌&&◌, ◌||◌, Option, none, some, List, [], ◌∷◌, ◌++◌, map, append-nil,
  append_assoc, map-append, arith, str_eq, eq_iff, eq_refl, ltb, leb, ◌==◌, if◌then◌else◌, ltb→lt,
  leb→le, ==_iff, Bool-cases, if_cases, Option-cases, or_else, is_some, length, select, find, any,
  take, drop, All, length-append, All-append, All-map, All-select, All-select_of, length-take-le,
  select-append, Pairwise, Pairwise-map,
}
use grocery_genie.Errors.{
  Detail, missing, text, coded, other_detail, ErrorBody, ApiError, Thrown, api, other, body_detail,
  body_code, is_text, coded_detail, api_error_code, quota_text, is_quota_exceeded_error,
  is_ai_consent_required_error, retryable_status, is_retryable_scan_error, quota_message,
  read_failure, detail_message, scan_error_message, hints, quota_hint, fallback_hint, better,
  best_hint, hint_of, detail_hint, scan_error_hint,
}
use grocery_genie.Scan.Submission.{
  FlowState, ready, capturing, processing, low_quality, queued, Screen, Surroundings, Network,
  unreadable, connected, offline, fail, new_capture, keep_photo, queue_photo, network_answered,
  begin_submit, submit, on_success, on_error, Answer, scanned, refused, answered, is_processing,
  capture, record_abandon, start_attempt, pill_over,
}
use grocery_genie.Scan.Document.{
  ScannedImage, Page, ScanOutcome, page, cancelled, failed, ScanResult, thrown, erroneous,
  answered_with, type_or_jpeg, uri_of, scan_document,
}

pub data FrameVerdict : Type 0 where
  ok blurry dark bright : FrameVerdict

pub record PagePrompt : Type 0 where
  pub uri : String
  pub mime_type : String
  pub hints : List String

-- Where a call of `launch` waits.
pub data Phase : Type 0 where
  idle scanning_page : Phase
  scoring : Page → Phase
  checking_network : String → String → Phase

-- The screen's state and refs, with the files deleted so far and, for the record, the pages that
-- scans gave and those submitted. `uploading` is the upload whose callbacks are still to run: of
-- several calls of `mutate` only the last one's are called. `in_view` is false once the screen was
-- left, until the next focus. `uses` are the pages of Use Scan whose network check has not
-- answered.
pub record Scanner : Type 0 where
  pub submission : Screen
  pub phase : Phase
  pub scanning : Bool
  pub checking : Bool
  pub prompt : Option PagePrompt
  pub busy : Bool
  pub in_view : Bool
  pub uses : List (String × String)
  pub uploading : Option (String × String)
  pub scanned : List String
  pub submitted : List String
  pub deleted : List String

unfoldable pub launch : Scanner → Scanner
unfolding start_attempt
launch s = if s.busy then s else record s {
  busy = true;
  submission = record (start_attempt s.submission) { flow_state = ready };
  prompt = none;
  scanning = true;
  phase = scanning_page;
}

-- The rest of `launch` when scanDocument answers; `asking` is whether consent is being asked.
unfoldable pub scan_returned : Bool → ScanOutcome → Scanner → Scanner
unfolding record_abandon fail
scan_returned asking cancelled s = record s {
  scanning = false;
  submission = record_abandon asking s.submission;
  in_view = false;
  busy = false;
  phase = idle;
}
scan_returned asking failed s = record s {
  scanning = false;
  submission = fail other s.submission;
  busy = false;
  phase = idle;
}
scan_returned asking (page p) s = record s {
  scanning = false;
  checking = true;
  phase = scoring p;
  scanned = s.scanned ++ p.uri ∷ [];
}

-- EXTRA_PAGES_HINT and QUALITY_HINTS
abbrev pub extra_pages_hint : String
extra_pages_hint = "Only the first page was kept. Scan each page as its own receipt."

abbrev pub verdict_hints : Option FrameVerdict → List String
verdict_hints none = []
verdict_hints (some ok) = []
verdict_hints (some blurry) = "Image looks blurry — hold steady" ∷ []
verdict_hints (some dark) = "Too dark — find more light" ∷ []
verdict_hints (some bright) = "Too much glare — tilt the receipt" ∷ []

unfoldable pub page_hints : Option FrameVerdict → Page → List String
page_hints verdict p =
    verdict_hints verdict ++ (if ltb 0 p.dropped_pages then extra_pages_hint ∷ [] else [])

unfoldable pub hold_or_submit : List String → Page → Scanner → Scanner
unfolding begin_submit
hold_or_submit [] p s = record s {
  checking = false;
  submission = begin_submit s.submission;
  submitted = s.submitted ++ p.uri ∷ [];
  phase = checking_network p.uri p.mime_type;
}
hold_or_submit (h ∷ hs) p s = record s {
  checking = false;
  prompt = some (record { uri = p.uri; mime_type = p.mime_type; hints = h ∷ hs });
  busy = false;
  phase = idle;
}

-- The rest of `launch` when the score is there, `none` if scoring failed.
unfoldable pub scored : Option FrameVerdict → Page → Scanner → Scanner
unfolding hold_or_submit page_hints
scored verdict p s = hold_or_submit (page_hints verdict p) p s

abbrev pub upload_started :
    Screen → String × String → Option (String × String) → Option (String × String)
upload_started after u before = if is_processing after.flow_state then some u else before

-- The network check of a submission has answered.
unfoldable pub network_checked : Surroundings → Network → String × String → Scanner → Scanner
unfolding network_answered
network_checked w net u s =
    let after = network_answered w net u.0 u.1 s.submission in
    record s { submission = after; uploading = upload_started after u s.uploading }

-- The end of `launch` when the network check of its submission answers.
unfoldable pub launch_ends : Surroundings → Network → String → String → Scanner → Scanner
unfolding network_checked
launch_ends w net uri mime_type s = record (network_checked w net (uri, mime_type) s) {
  busy = false;
  phase = idle;
}

abbrev pub delete_prompt : Option PagePrompt → List String → List String
delete_prompt none deleted = deleted
delete_prompt (some p) deleted = deleted ++ p.uri ∷ []

unfoldable pub retake : Scanner → Scanner
unfolding launch
retake s = launch (record s { deleted = delete_prompt s.prompt s.deleted })

unfoldable pub use_prompt : Option PagePrompt → Scanner → Scanner
unfolding begin_submit
use_prompt none s = s
use_prompt (some p) s = record s {
  prompt = none;
  submission = begin_submit s.submission;
  submitted = s.submitted ++ p.uri ∷ [];
  uses = s.uses ++ (p.uri, p.mime_type) ∷ [];
}

unfoldable pub use_page : Scanner → Scanner
unfolding use_prompt
use_page s = use_prompt s.prompt s

unfoldable pub cancel : Bool → Scanner → Scanner
unfolding record_abandon
cancel asking s = record s {
  deleted = delete_prompt s.prompt s.deleted;
  submission = record_abandon asking s.submission;
  in_view = false;
}

-- The oldest network check of Use Scan answers.
unfoldable pub use_answered : Surroundings → Network → Scanner → Scanner
unfolding network_checked
use_answered w net s = elim (s.uses) [
  | [] ↦ s
  | ◌∷◌ u us ↦ record (network_checked w net u s) { uses = us }
]

unfoldable pub upload_answered :
    Surroundings → Answer → Option (String × String) → Scanner → Scanner
unfolding answered
upload_answered w a none s = s
upload_answered w a (some u) s = record s {
  submission = answered w u.0 u.1 a s.submission;
  uploading = none;
}

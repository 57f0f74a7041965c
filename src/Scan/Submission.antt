-- ===== src/Scan/Submission.antt =====
-- What a capture does once the photo exists:
-- mobile/src/features/receipt-capture/hooks/useScanSubmission.ts. The hook's React state, refs and
-- stores are one record, with the calls of the router, the analytics and the prompts so far.
pub mod Abandonment
pub mod Endings
use grocery_genie.Base.{
  ℕ, zero, suc, ◌+◌, ◌-◌, ◌*◌, ◌/◌, ◌%◌, ◌≤◌, ◌<◌, String, ◌≡◌, refl, sym, ap, subst, ◌∙◌, ◌≢◌, ◌↔◌,
  ◌⊎◌, inl, inr, Bool, true, false, not, ◌&&◌, ◌||◌, Option, none, some, List, [], ◌∷◌, ◌++◌, map,
  append-nil, append_assoc, map-append, arith, str_eq, eq_iff, eq_refl, ltb, leb, ◌==◌,
  if◌then◌else◌, ltb→lt, leb→le, ==_iff, Bool-cases, Option-cases, or_else, is_some, length, select,
  find, any, take, drop, All, length-append, All-append, All-map, All-select, All-select_of,
  length-take-le, select-append,
}
use grocery_genie.Errors.{
  Thrown, other, is_ai_consent_required_error, is_quota_exceeded_error, is_retryable_scan_error,
  scan_error_hint,
}
use grocery_genie.Queue.{Queue, Capture, add_pending_receipt}

pub data FlowState : Type 0 where
  ready capturing processing low_quality queued : FlowState

pub record Screen : Type 0 where
  pub flow_state : FlowState
  pub processing_uri : Option String
  pub error_hint : String
  pub attempt_settled : Bool
  pub pending_receipts : Queue
  pub captured_image_uri : Option String
  -- the receipt id of the active scan response
  pub active_scan : Option String
  pub pushed : List String
  pub consent_asked : ℕ
  pub quota_prompts : ℕ
  pub abandoned : ℕ

-- What a capture reads of its surroundings. `persisted` is the copy that persistCapturedImage
-- makes, `none` if it throws; `new_id` and `now` are the queue entry's id and time.
pub record Surroundings : Type 0 where
  pub owner_id : Option String
  pub persisted : Option String
  pub new_id : String
  pub now : String

-- NetInfo.fetch(): it throws, or gives `isConnected`, which may be unknown.
pub data Network : Type 0 where
  unreadable : Network
  connected : Option Bool → Network

abbrev pub offline : Option Bool → Bool
offline none = false
offline (some b) = not b

unfoldable pub fail : Thrown → Screen → Screen
fail e s = record s { error_hint = scan_error_hint e; flow_state = low_quality }

abbrev pub new_capture : String → String → String → String → Capture
new_capture uri mime_type now owner = record {
  image_uri = uri;
  mime_type = mime_type;
  captured_at = now;
  owner_id = owner;
  source = none;
  last_attempt_failed = false;
  failure = none;
  needs_consent = false;
}

unfoldable pub keep_photo : Surroundings → String → Option String → Option String → Screen → Screen
unfolding fail
keep_photo w mime_type none copy s = fail other s
keep_photo w mime_type (some owner) none s = fail other s
keep_photo w mime_type (some owner) (some copy) s = record s {
  pending_receipts =
      add_pending_receipt w.new_id (new_capture copy mime_type w.now owner) s.pending_receipts;
  flow_state = queued;
}

unfoldable pub queue_photo : Surroundings → String → Screen → Screen
unfolding keep_photo
queue_photo w mime_type s = keep_photo w mime_type w.owner_id w.persisted s

-- The rest of `submit` once the network check has answered, up to the upload: `flow_state` is
-- `processing` if one is under way.
unfoldable pub network_answered : Surroundings → Network → String → String → Screen → Screen
unfolding queue_photo fail
network_answered w unreadable uri mime_type s = fail other s
network_answered w (connected c) uri mime_type s =
    if offline c
    then queue_photo w mime_type s
    else record s { processing_uri = some uri; flow_state = processing }

-- `submit` up to the network check.
unfoldable pub begin_submit : Screen → Screen
begin_submit s = record s { attempt_settled = true }

unfoldable pub submit : Surroundings → Network → String → String → Screen → Screen
unfolding network_answered begin_submit
submit w net uri mime_type s = network_answered w net uri mime_type (begin_submit s)

unfoldable pub on_success : String → String → Screen → Screen
on_success uri receipt_id s = record s {
  captured_image_uri = some uri;
  active_scan = some receipt_id;
  flow_state = ready;
  pushed = s.pushed ++ "/review" ∷ [];
}

unfoldable pub on_error : Surroundings → String → Thrown → Screen → Screen
on_error w mime_type e s =
    if is_ai_consent_required_error e
    then record s { flow_state = ready; consent_asked = s.consent_asked + 1 }
    else if is_quota_exceeded_error e
    then record s { flow_state = ready; quota_prompts = s.quota_prompts + 1 }
    else if is_retryable_scan_error e
    then queue_photo w mime_type s
    else fail e s

-- The upload's answer: a receipt id, or what was thrown.
pub data Answer : Type 0 where
  scanned : String → Answer
  refused : Thrown → Answer

unfoldable pub answered : Surroundings → String → String → Answer → Screen → Screen
unfolding on_success on_error
answered w uri mime_type (scanned receipt_id) s = on_success uri receipt_id s
answered w uri mime_type (refused e) s = on_error w mime_type e s

abbrev pub is_processing : FlowState → Bool
is_processing processing = true
is_processing _ = false

-- A whole capture: `submit`, and the answer if an upload was started.
unfoldable pub capture : Surroundings → Network → String → String → Answer → Screen → Screen
capture w net uri mime_type a s =
    let s' = submit w net uri mime_type (record s { flow_state = capturing }) in
    if is_processing s'.flow_state then answered w uri mime_type a s' else s'

-- recordAbandon(), called when the screen goes; `asking_consent` is the ref's value.
unfoldable pub record_abandon : Bool → Screen → Screen
record_abandon asking_consent s =
    if s.attempt_settled || asking_consent
    then s
    else record s { attempt_settled = true; abandoned = s.abandoned + 1 }

unfoldable pub start_attempt : Screen → Screen
start_attempt s = record s { attempt_settled = false }

-- The pill's timer.
unfoldable pub pill_over : Screen → Screen
pill_over s = elim (s.flow_state) [ queued ↦ record s { flow_state = ready } | _ ↦ s ]

-- ===== src/Scan/Attempts.antt =====
-- The taps that start an import, and what becomes of each:
-- mobile/src/features/receipt-capture/hooks/useReceiptImport.ts. Imports are numbered by `attempt`;
-- `stages` says what each one waits for, and an event tells that the wait of one is over.
pub mod Guard
pub mod Single
use grocery_genie.Base.{
  Eq, nat_eq, string_eq, option_beq, option_beq_iff, changed, trim, is_empty, ℕ, zero, suc, ◌+◌,
  ◌-◌, ◌*◌, ◌/◌, ◌%◌, ◌≤◌, ◌<◌, String, ◌≡◌, refl, sym, ap, subst, ◌∙◌, ◌≢◌, ◌↔◌, ◌⊎◌, inl, inr,
  Bool, true, false, not, ◌&&◌, ◌||◌, Option, none, some, List, [], ◌∷◌, ◌++◌, map, append-nil,
  append_assoc, map-append, arith, str_eq, eq_iff, eq_refl, ltb, leb, ◌==◌, if◌then◌else◌, ltb→lt,
  leb→le, ==_iff, Bool-cases, Option-cases, or_else, is_some, length, select, find, any, take, drop,
  All, length-append, All-append, All-map, All-select, All-select_of, length-take-le, select-append,
}
use grocery_genie.Queue.{Queue, add_pending_receipt}
use grocery_genie.Scan.Submission.{Surroundings}
use grocery_genie.Scan.Import.{
  max_upload_bytes, min_image_width, accepted_types, type_by_extension, PickedReceipt, Problem,
  too_large, too_narrow, unsupported_type, PickOutcome, canceled, rejected, picked, Asset, exceeds,
  width_problem, check_file, picked_file, unless, from_library_result, extension_from, same_codes,
  lookup_type, first_type, supported, from_typed, from_document_result, Upload, scanned, refused,
  ImportResult, import_canceled, queued, consent_required, over_quota, bad_file, failed_with, ready,
  saved, after_refusal, image_path, after_upload, import_receipt,
}

pub data Phase : Type 0 where
  idle busy picking : Phase

-- What an import waits for: the consent sheet, the picker, the upload, the consent sheet after the
-- server refused, or nothing (it has not begun, or it is over).
pub data Stage : Type 0 where
  asking choosing asking_again over : Stage
  uploading : PickedReceipt → Stage

pub record Importer : Type 0 where
  pub phase : Phase
  pub attempt : ℕ
  pub stages : ℕ → Stage
  -- the preview of `progress`, if it is set
  pub progress : Option (Option String)
  pub pending_receipts : Queue
  pub captured_image_uri : Option String
  pub active_scan : Option String
  pub pushed : List String
  pub marked_required : ℕ
  -- the alerts and prompts shown, newest first
  pub shown : List ImportResult

abbrev pub at : ℕ → Stage → (ℕ → Stage) → ℕ → Stage
at n st stages k = if k == n then st else stages k

-- `queue`; `none` if it throws.
unfoldable pub queue_file :
    Surroundings → PickedReceipt → Option String → Option String → Queue → Option Queue
queue_file w r none copy q = none
queue_file w r (some owner) none q = none
queue_file w r (some owner) (some copy) q = some (add_pending_receipt w.new_id capture q)
  where
    capture : grocery_genie.Queue.Capture
    capture = record {
      image_uri = copy;
      mime_type = r.mime_type;
      captured_at = w.now;
      owner_id = owner;
      source = some r.source;
      last_attempt_failed = false;
      failure = none;
      needs_consent = false;
    }

-- A new attempt, which asks for consent first.
unfoldable pub start_import : Importer → Importer
start_import s = record s {
  phase = busy;
  attempt = suc s.attempt;
  stages = at (suc s.attempt) asking s.stages;
}

unfoldable pub tap_in : Phase → Importer → Importer
unfolding start_import
tap_in busy s = s
tap_in idle s = start_import s
tap_in picking s = start_import s

-- importFrom, up to the consent sheet.
unfoldable pub tap : Importer → Importer
unfolding tap_in
tap s = tap_in s.phase s

-- The `finally` block.
unfoldable pub finally : ℕ → Importer → Importer
finally n s = record s {
  stages = at n over s.stages;
  phase = if n == s.attempt then idle else s.phase;
}

unfoldable pub consented : ℕ → Bool → Importer → Importer
unfolding finally
consented n allowed s =
    if allowed then record s { phase = picking; stages = at n choosing s.stages } else finally n s

abbrev pub is_queued : ImportResult → Bool
is_queued queued = true
is_queued _ = false

-- The branches on the result of importReceipt.
unfoldable pub conclude : ℕ → ImportResult → Importer → Importer
unfolding finally
conclude n (ready i preview) s = finally n (record s {
  progress = none;
  captured_image_uri = some preview;
  active_scan = some i;
  pushed = s.pushed ++ "/review" ∷ [];
})
conclude n consent_required s = record s {
  progress = none;
  marked_required = s.marked_required + 1;
  phase = idle;
  stages = at n asking_again s.stages;
}
conclude n import_canceled s = finally n (record s { progress = none })
conclude n r s = finally n (record s { progress = none; shown = r ∷ s.shown })

unfoldable pub after_pick : ℕ → PickOutcome → Importer → Importer
unfolding conclude
after_pick n canceled s = conclude n import_canceled s
after_pick n (rejected p) s = conclude n (bad_file p) s
after_pick n (picked r) s = record s {
  progress = some r.preview_uri;
  stages = at n (uploading r) s.stages;
}

-- The picker is done; a newer tap replaced this pick if it is not the current one.
unfoldable pub chosen : ℕ → PickOutcome → Importer → Importer
unfolding after_pick conclude
chosen n outcome s =
    if n == s.attempt
    then after_pick n outcome (record s { phase = busy })
    else conclude n import_canceled s

-- The `catch` block: a picker or a consent sheet threw.
unfoldable pub attempt_failed : ℕ → Importer → Importer
unfolding finally
attempt_failed n s =
    if n == s.attempt
    then finally n (record s {
      progress = none;
      shown = failed_with "The picker couldn’t open. Try again." ∷ s.shown;
    })
    else record s { stages = at n over s.stages }

unfoldable pub answered : Surroundings → ℕ → PickedReceipt → Upload → Importer → Importer
unfolding queue_file conclude
answered w n r u s =
    let saved_queue = queue_file w r w.owner_id w.persisted s.pending_receipts in
    let result = after_upload (some (λ x. is_some saved_queue)) r u in
    conclude n result (record s {
      pending_receipts =
          if is_queued result then or_else saved_queue s.pending_receipts else s.pending_receipts;
    })

pub data Event : Type 0 where
  tapped : Event
  consent_given : ℕ → Bool → Event
  file_chosen : ℕ → PickOutcome → Event
  wait_failed consent_asked : ℕ → Event
  upload_over : Surroundings → ℕ → Upload → Event

-- An event of an import that does not wait for it does not happen.
unfoldable pub consent_step : ℕ → Bool → Stage → Importer → Importer
unfolding consented
consent_step n allowed asking s = consented n allowed s
consent_step n allowed _ s = s

unfoldable pub choice_step : ℕ → PickOutcome → Stage → Importer → Importer
unfolding chosen
choice_step n outcome choosing s = chosen n outcome s
choice_step n outcome _ s = s

unfoldable pub throw_step : ℕ → Stage → Importer → Importer
unfolding attempt_failed
throw_step n choosing s = attempt_failed n s
throw_step n asking s = attempt_failed n s
throw_step n asking_again s = attempt_failed n s
throw_step n _ s = s

unfoldable pub again_step : ℕ → Stage → Importer → Importer
unfolding finally
again_step n asking_again s = finally n s
again_step n _ s = s

unfoldable pub upload_step : Surroundings → ℕ → Upload → Stage → Importer → Importer
unfolding answered
upload_step w n u (uploading r) s = answered w n r u s
upload_step w n u _ s = s

unfoldable pub step : Event → Importer → Importer
unfolding tap consent_step choice_step throw_step again_step upload_step
step tapped s = tap s
step (consent_given n allowed) s = consent_step n allowed (s.stages n) s
step (file_chosen n outcome) s = choice_step n outcome (s.stages n) s
step (wait_failed n) s = throw_step n (s.stages n) s
step (consent_asked n) s = again_step n (s.stages n) s
step (upload_over w n u) s = upload_step w n u (s.stages n) s

unfoldable pub run : List Event → Importer → Importer
run [] s = s
run (e ∷ es) s = run es (step e s)

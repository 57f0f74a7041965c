-- ===== src/Queue/Tests.antt =====
-- Runs of the offline queue on small examples.
use grocery_genie.Base.{
  nat_eq, string_eq, ℕ, zero, suc, ◌≤◌, String, ◌≡◌, refl, ◌⊎◌, false, Option, none, some, List, [],
  ◌∷◌, arith, length, All,
}
use grocery_genie.Errors.{
  Thrown, api, is_ai_consent_required_error, is_retryable_scan_error, is_quota_exceeded_error,
}
use grocery_genie.Queue.{library, Status, pending, syncing, failed, PendingReceipt, Capture, Queue}
use grocery_genie.Queue.Refinement.{
  Operation, adds, updates, fails_attempt, removes, apply_all, change_map_all, entry-apply_all,
}
use grocery_genie.Queue.Store.{entry, NoneSyncing}
use grocery_genie.Queue.Sync.{
  Turn, Run, after_failure, after_upload, attempt, sync_loop, queued, start, run_sync,
}
use grocery_genie.Queue.Sync.Uploads.{Sends, run_sync-Sends, IsAccounted, run_sync-IsAccounted}
use grocery_genie.Queue.Sync.Entries.{Calm, run_sync-NoneSyncing}
use grocery_genie.Queue.Sync.Kept.{Steady, Holds, Landed, run_sync-Holds}
use grocery_genie.Queue.Sync.Drains.{AllWell, run_sync-AllWell}
use grocery_genie.Queue.Runs.{Event, requested, begun, settled, run_events, idle}
use grocery_genie.Queue.Runs.Order.{Current}
use grocery_genie.Queue.Runs.Exclusive.{active, active_at_most_one}

abbrev photo : String → String → String → Status → PendingReceipt
photo i uri owner s = record {
  id = i;
  image_uri = uri;
  mime_type = "image/jpeg";
  captured_at = "2026-01-02T10:00:00Z";
  owner_id = owner;
  source = none;
  status = s;
  last_attempt_failed = false;
  failure = none;
  needs_consent = false;
}

abbrev box : Queue
box =
    photo "p1" "file:///p1" "ann" pending
    ∷ photo "p2" "file:///p2" "bob" pending
    ∷ photo "p3" "file:///p3" "ann" failed
    ∷ photo "p4" "file:///p4" "ann" pending
    ∷ []

abbrev turn : Option Thrown → Turn
turn o = record { owner_now = some "ann"; meanwhile = λ q. q; outcome = o }

abbrev all_well : ℕ → Turn
all_well n = turn none

-- The first upload is refused as unreadable, the second meets an outage.
abbrev mixed : ℕ → Turn
mixed zero = turn (some (api (record { status = 422; body = none })))
mixed (suc n) = turn (some (api (record { status = 503; body = none })))

abbrev mixed_run : Run
mixed_run = run_sync "ann" mixed box

mixed_counts : (mixed_run.rejected ≡ 1) × (mixed_run.synced ≡ 0) × (length mixed_run.sent ≡ 2)
unfolding run_sync sync_loop queued after_upload after_failure is_ai_consent_required_error
    is_retryable_scan_error is_quota_exceeded_error attempt
mixed_counts = (refl, refl, refl)

well_deletes : (run_sync "ann" all_well box).deleted ≡ "file:///p1" ∷ "file:///p4" ∷ []
unfolding run_sync sync_loop queued after_upload attempt
well_deletes = refl

mixed-Steady : (j : String) → Steady j mixed
mixed-Steady j zero q = refl
mixed-Steady j (suc n) q = refl

mixed-Calm : Calm mixed
mixed-Calm zero i q h = h
mixed-Calm (suc n) i q h = h

box-NoneSyncing : NoneSyncing box
box-NoneSyncing = ground arith

run_sync-Sends_example : Sends "ann" mixed (queued "ann" box) (start box) (run_sync "ann" mixed box)
run_sync-Sends_example = run_sync-Sends "ann" mixed box

run_sync-IsAccounted_example : IsAccounted (run_sync "ann" mixed box)
run_sync-IsAccounted_example = run_sync-IsAccounted "ann" mixed box

run_sync-NoneSyncing_example : NoneSyncing (run_sync "ann" mixed box).queue
run_sync-NoneSyncing_example = run_sync-NoneSyncing "ann" mixed box mixed-Calm box-NoneSyncing

run_sync-Holds_example :
    Holds (photo "p1" "file:///p1" "ann" pending) (entry "p1" (run_sync "ann" mixed box).queue)
    ⊎ Landed mixed (queued "ann" box) "p1"
run_sync-Holds_example =
    run_sync-Holds "ann" mixed box "p1" (photo "p1" "file:///p1" "ann" pending) (mixed-Steady "p1")
      (unfold entry in refl)

well-AllWell : AllWell "ann" all_well
well-AllWell = record { signed_in = λ n. refl; uploads = λ n. refl }

run_sync-AllWell_example :
    ((run_sync "ann" all_well box).synced ≡ length (queued "ann" box))
    × All (λ r. entry r.id (run_sync "ann" all_well box).queue ≡ none) (queued "ann" box)
run_sync-AllWell_example = run_sync-AllWell "ann" all_well box well-AllWell (λ j n q. refl)

-- bob signs in while ann's upload is under way, and his run starts when hers is over.
abbrev handover : List Event
handover = requested "ann" ∷ requested "ann" ∷ requested "bob" ∷ begun 1 ∷ settled 0 ∷ begun 1 ∷ []

active_at_most_one_example :
    (length (active (run_events handover idle).runs) ≤ 1)
    × Current (run_events handover idle).in_flight (run_events handover idle).runs
active_at_most_one_example = active_at_most_one handover

abbrev capture : Capture
capture = record {
  image_uri = "file:///p5";
  mime_type = "image/jpeg";
  captured_at = "2026-01-02T11:00:00Z";
  owner_id = "ann";
  source = some library;
  last_attempt_failed = false;
  failure = none;
  needs_consent = false;
}

abbrev calls : List Operation
calls = adds "p5" capture ∷ updates "p5" syncing ∷ fails_attempt "p5" ∷ removes "p1" ∷ []

entry-apply_all_example :
    entry "p5" (apply_all calls box) ≡ change_map_all calls (λ i. entry i box) "p5"
entry-apply_all_example = entry-apply_all calls box "p5"

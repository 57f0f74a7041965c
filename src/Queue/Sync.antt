-- ===== src/Queue/Sync.antt =====
-- The upload run over the queue: `runSync` of
-- mobile/src/features/receipt-capture/services/offlineQueue.ts. Each round of its loop meets a
-- `Turn` of its surroundings: who is signed in, what else happens to the store while the upload is
-- awaited, and how the upload ends.
pub mod Loop
pub mod Drains
pub mod Entries
pub mod Kept
pub mod Uploads
use grocery_genie.Base.{
  ℕ, suc, ◌+◌, String, Bool, true, false, ◌&&◌, Option, none, some, List, [], ◌∷◌, ◌++◌, str_eq,
  if◌then◌else◌, or_else, select,
}
use grocery_genie.Errors.{
  Thrown, is_text, is_ai_consent_required_error, is_retryable_scan_error, is_quota_exceeded_error,
}
use grocery_genie.Queue.{
  Queue, PendingReceipt, ScanSource, camera, Status, pending, syncing, unreadable, quota,
  update_status, mark_attempt_failed, hold_for_consent, mark_failed, remove_pending_receipt,
}

pub record Turn : Type 0 where
  pub owner_now : Option String
  pub meanwhile : Queue → Queue
  -- `none`: the upload succeeded.
  pub outcome : Option Thrown

-- The arguments of `scan`.
pub record Upload : Type 0 where
  pub image_uri : String
  pub mime_type : String
  pub source : ScanSource

-- The store, the calls made so far (`sent`, `deleted`, `consent_asked`) and the SyncResult.
pub record Run : Type 0 where
  pub queue : Queue
  pub sent : List Upload
  pub deleted : List String
  pub consent_asked : Bool
  pub synced : ℕ
  pub rejected : ℕ

pub data Verdict : Type 0 where
  go_on stop : Run → Verdict

abbrev pub upload_of : PendingReceipt → Upload
upload_of r = record {
  image_uri = r.image_uri;
  mime_type = r.mime_type;
  source = or_else r.source camera;
}

-- The `catch` branch.
unfoldable pub after_failure : Thrown → PendingReceipt → Run → Verdict
after_failure e r w =
    if is_ai_consent_required_error e
    then stop (record w { queue = hold_for_consent r.id w.queue; consent_asked = true })
    else if is_retryable_scan_error e
    then stop (record w { queue = mark_attempt_failed r.id w.queue })
    else go_on (record w {
      queue = mark_failed r.id (if is_quota_exceeded_error e then quota else unreadable) w.queue;
      rejected = w.rejected + 1;
    })

unfoldable pub after_upload : Option Thrown → PendingReceipt → Run → Verdict
after_upload (some e) r w = after_failure e r w
after_upload none r w = go_on (record w {
  queue = remove_pending_receipt r.id w.queue;
  deleted = w.deleted ++ r.image_uri ∷ [];
  synced = w.synced + 1;
})

-- updateStatus(…, 'syncing'), then `await scan(…)`.
unfoldable pub attempt : Turn → PendingReceipt → Run → Run
attempt t r w = record w {
  queue = t.meanwhile (update_status r.id syncing w.queue);
  sent = w.sent ++ upload_of r ∷ [];
}

abbrev pub follow : Verdict → (Run → Run) → Run
follow (stop w) k = w
follow (go_on w) k = k w

abbrev pub rest_of : (ℕ → Turn) → ℕ → Turn
rest_of turns n = turns (suc n)

unfoldable pub sync_loop : String → (ℕ → Turn) → List PendingReceipt → Run → Run
sync_loop owner turns [] w = w
sync_loop owner turns (r ∷ rs) w =
    if is_text (turns 0).owner_now owner
    then follow (after_upload (turns 0).outcome r (attempt (turns 0) r w))
        (sync_loop owner (rest_of turns) rs)
    else w

abbrev pub is_pending : Status → Bool
is_pending pending = true
is_pending _ = false

unfoldable pub queued : String → Queue → List PendingReceipt
queued owner q = select (λ r. is_pending r.status && str_eq r.owner_id owner) q

abbrev pub start : Queue → Run
start q = record {
  queue = q;
  sent = [];
  deleted = [];
  consent_asked = false;
  synced = 0;
  rejected = 0;
}

unfoldable pub run_sync : String → (ℕ → Turn) → Queue → Run
run_sync owner turns q = sync_loop owner turns (queued owner q) (start q)

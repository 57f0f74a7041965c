-- ===== src/Queue/Sync/Uploads.antt =====
-- Which photos an upload run sends, in which order, and how it counts them.
use grocery_genie.Base.{
  ℕ, zero, suc, ◌+◌, ◌≤◌, ◌<◌, String, ◌≡◌, refl, sym, ◌∙◌, inl, inr, true, Option, none, some,
  List, [], ◌∷◌, ◌++◌, map, append-nil, append_assoc, arith, Bool-cases, length, take,
  length-append,
}
use grocery_genie.Errors.{Thrown, is_text}
use grocery_genie.Queue.{Queue, PendingReceipt}
use grocery_genie.Queue.Sync.Loop.{Judge, follow_rule, Judge-mono}
use grocery_genie.Queue.Sync.{
  Turn, Run, upload_of, after_failure, after_upload, attempt, rest_of, sync_loop, queued, start,
  run_sync,
}

-- A loop that starts at `w` sent the first `n` photos of `rs`, with `owner` signed in at each.
pub record Sends (owner : String) (turns : ℕ → Turn) (rs : List PendingReceipt) (w v : Run)
    : Type 0 where
  pub count : ℕ
  pub photos : v.sent ≡ w.sent ++ map upload_of (take count rs)
  pub signed_in : (i : ℕ) → i < count → is_text (turns i).owner_now owner ≡ true

module _ (owner : String) where
  Sends-none : (turns : ℕ → Turn) (rs : List PendingReceipt) (w : Run) → Sends owner turns rs w w
  Sends-none turns rs w = record {
    count = 0;
    photos = sym (append-nil _);
    signed_in = λ i h. elim h [ ];
  }

  after_upload-sent :
      (o : Option Thrown) (r : PendingReceipt) (w : Run)
      → Judge (λ v. v.sent ≡ w.sent) (λ v. v.sent ≡ w.sent) (after_upload o r w)
  unfolding after_upload after_failure
  after_upload-sent none r w = refl
  after_upload-sent (some e) r w = ground arith

  Sends-cons :
      (turns : ℕ → Turn) (r : PendingReceipt) (rs : List PendingReceipt) (w v u : Run)
      → is_text (turns 0).owner_now owner ≡ true
      → v.sent ≡ w.sent ++ upload_of r ∷ []
      → Sends owner (rest_of turns) rs v u
      → Sends owner turns (r ∷ rs) w u
  Sends-cons turns r rs w v u now e s = record {
    count = suc s.count;
    photos = s.photos ∙ rw e (append_assoc w.sent (upload_of r ∷ []) _);
    signed_in = before;
  }
    where
      before : (i : ℕ) → i < suc s.count → is_text (turns i).owner_now owner ≡ true
      before zero h = now
      before (suc i) h = s.signed_in i (omega arith)

  sync_loop-Sends :
      (turns : ℕ → Turn) (rs : List PendingReceipt) (w : Run)
      → Sends owner turns rs w (sync_loop owner turns rs w)
  unfolding sync_loop attempt
  sync_loop-Sends turns [] w = Sends-none turns [] w
  sync_loop-Sends turns (r ∷ rs) w = elim (Bool-cases (is_text (turns 0).owner_now owner)) [
    | inl now ↦ rw now (
        follow_rule (Sends owner turns (r ∷ rs) w) _
          (after_upload (turns 0).outcome r (attempt (turns 0) r w))
          (Judge-mono _ _ _ _ (after_upload (turns 0).outcome r (attempt (turns 0) r w))
            (after_upload-sent (turns 0).outcome r (attempt (turns 0) r w))
            (λ v e. Sends-cons turns r rs w v v now e (Sends-none (rest_of turns) rs v)) (λ v e. e))
          (sync_loop owner (rest_of turns) rs)
          (λ v e. Sends-cons turns r rs w v _ now e (sync_loop-Sends (rest_of turns) rs v)))
    | inr away ↦ rw away (Sends-none turns (r ∷ rs) w)
  ]

-- Whatever happens around it, a run for `owner` sends a prefix of the pending photos that `owner`
-- captured, in the queue's order and each once, and starts each upload while `owner` is signed in.
pub run_sync-Sends :
    (owner : String) (turns : ℕ → Turn) (q : Queue)
    → Sends owner turns (queued owner q) (start q) (run_sync owner turns q)
unfolding run_sync
run_sync-Sends owner turns q = sync_loop-Sends owner turns (queued owner q) (start q)

pub record IsCounted (w : Run) : Type 0 where
  pub photos_deleted : length w.deleted ≡ w.synced
  pub uploads : length w.sent ≡ w.synced + w.rejected

pub record IsAccounted (w : Run) : Type 0 where
  pub photos_deleted : length w.deleted ≡ w.synced
  pub at_least : w.synced + w.rejected ≤ length w.sent
  pub at_most : length w.sent ≤ w.synced + w.rejected + 1

attempt-Judge :
    (o : Option Thrown) (t : Turn) (r : PendingReceipt) (w : Run)
    → IsCounted w
    → Judge IsAccounted IsCounted (after_upload o r (attempt t r w))
unfolding attempt after_upload after_failure
attempt-Judge none t r w c =
    ground
      (arith, length-append w.sent (upload_of r ∷ []), length-append w.deleted (r.image_uri ∷ []))
attempt-Judge (some e) t r w c = ground (arith, length-append w.sent (upload_of r ∷ []))

sync_loop-IsAccounted :
    (owner : String) (turns : ℕ → Turn) (rs : List PendingReceipt) (w : Run)
    → IsCounted w
    → IsAccounted (sync_loop owner turns rs w)
unfolding sync_loop
sync_loop-IsAccounted owner turns [] w c = ground arith
sync_loop-IsAccounted owner turns (r ∷ rs) w c =
    elim (Bool-cases (is_text (turns 0).owner_now owner)) [
      | inl now ↦ rw now (
          follow_rule IsAccounted IsCounted
            (after_upload (turns 0).outcome r (attempt (turns 0) r w))
            (attempt-Judge (turns 0).outcome (turns 0) r w c) (sync_loop owner (rest_of turns) rs)
            (sync_loop-IsAccounted owner (rest_of turns) rs))
      | inr away ↦ rw away (ground arith)
    ]

-- A run deletes exactly one photo for each synced upload, and each upload but at most the one that
-- stopped the run is counted as synced or as failed.
pub run_sync-IsAccounted :
    (owner : String) (turns : ℕ → Turn) (q : Queue) → IsAccounted (run_sync owner turns q)
unfolding run_sync
run_sync-IsAccounted owner turns q =
    sync_loop-IsAccounted owner turns (queued owner q) (start q) (ground arith)

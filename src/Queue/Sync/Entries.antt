-- ===== src/Queue/Sync/Entries.antt =====
-- What an upload run does to the entries of the store.
use grocery_genie.Base.{
  ℕ, suc, ◌+◌, String, ◌≡◌, refl, ◌≢◌, inl, inr, true, Option, none, some, List, [], ◌∷◌, arith,
  if◌then◌else◌, Bool-cases,
}
use grocery_genie.Errors.{
  Thrown, is_text, is_quota_exceeded_error, is_ai_consent_required_error, is_retryable_scan_error,
}
use grocery_genie.Queue.{
  syncing, Failure, unreadable, quota, PendingReceipt, Queue, modify, mark_attempt_failed,
  hold_for_consent, mark_failed,
}
use grocery_genie.Queue.Store.{
  SyncingOnly, NoneSyncing, SyncingOnly-update_status, NoneSyncing-modify, NoneSyncing-remove,
}
use grocery_genie.Queue.Sync.{
  Turn, Run, after_failure, after_upload, attempt, rest_of, sync_loop, queued, start, run_sync,
}
use grocery_genie.Queue.Sync.Loop.{Judge, follow_rule, Judge-mono}

-- What happens to the store while an upload runs marks no other entry as `syncing`.
abbrev pub Calm : (ℕ → Turn) → Type 0
Calm turns =
    (n : ℕ) (i : String) (q : Queue) → SyncingOnly i q → SyncingOnly i ((turns n).meanwhile q)

-- How a failed upload rewrites its entry: the photo and its owner stay, and it is not `syncing`.
pub record Settles (f : PendingReceipt → PendingReceipt) : Type 0 where
  pub same_id : (r : PendingReceipt) → (f r).id ≡ r.id
  pub same_image : (r : PendingReceipt) → (f r).image_uri ≡ r.image_uri
  pub same_owner : (r : PendingReceipt) → (f r).owner_id ≡ r.owner_id
  pub not_syncing : (r : PendingReceipt) → (f r).status ≢ syncing

abbrev pub Settled : String → Queue → Run → Type 0
Settled i q v = (f : PendingReceipt → PendingReceipt) × Settles f × (v.queue ≡ modify i f q)

module _ (r : PendingReceipt) (w : Run) where
  consent-Settled :
      Settled r.id w.queue
        (record w { queue = hold_for_consent r.id w.queue; consent_asked = true })
  unfolding hold_for_consent
  consent-Settled = (
    _,
    record {
      same_id = λ x. refl;
      same_image = λ x. refl;
      same_owner = λ x. refl;
      not_syncing = λ x. ground arith;
    },
    refl,
  )

  attempt_failed-Settled :
      Settled r.id w.queue (record w { queue = mark_attempt_failed r.id w.queue })
  unfolding mark_attempt_failed
  attempt_failed-Settled = (
    _,
    record {
      same_id = λ x. refl;
      same_image = λ x. refl;
      same_owner = λ x. refl;
      not_syncing = λ x. ground arith;
    },
    refl,
  )

  failed-Settled :
      (why : Failure) (n : ℕ)
      → Settled r.id w.queue (record w { queue = mark_failed r.id why w.queue; rejected = n })
  unfolding mark_failed
  failed-Settled why n = (
    _,
    record {
      same_id = λ x. refl;
      same_image = λ x. refl;
      same_owner = λ x. refl;
      not_syncing = λ x. ground arith;
    },
    refl,
  )

  pub after_failure-Settled :
      (e : Thrown) → Judge (Settled r.id w.queue) (Settled r.id w.queue) (after_failure e r w)
  unfolding after_failure
  after_failure-Settled e = elim (Bool-cases (is_ai_consent_required_error e)) [
    | inl c ↦ rw c consent-Settled
    | inr c ↦ elim (Bool-cases (is_retryable_scan_error e)) [
      | inl d ↦ rw (c, d) attempt_failed-Settled
      | inr d ↦
          rw (c, d)
            (failed-Settled (if is_quota_exceeded_error e then quota else unreadable)
              (w.rejected + 1))
    ]
  ]

attempt-NoneSyncing :
    (o : Option Thrown) (t : Turn) (r : PendingReceipt) (w : Run)
    → ((i : String) (q : Queue) → SyncingOnly i q → SyncingOnly i (t.meanwhile q))
    → NoneSyncing w.queue
    → Judge (λ v. NoneSyncing v.queue) (λ v. NoneSyncing v.queue) (after_upload o r (attempt t r w))
unfolding attempt after_upload
attempt-NoneSyncing none t r w calm h =
    NoneSyncing-remove r.id _ (calm r.id _ (SyncingOnly-update_status r.id w.queue h))
attempt-NoneSyncing (some e) t r w calm h =
    Judge-mono _ _ _ _ (after_failure e r (attempt t r w))
      (after_failure-Settled r (attempt t r w) e) settled settled
  where
    settled : (v : Run) → Settled r.id (attempt t r w).queue v → NoneSyncing v.queue
    settled v (f, s, e) = rw e (
        NoneSyncing-modify r.id f _ s.not_syncing
          (calm r.id _ (SyncingOnly-update_status r.id w.queue h)))

sync_loop-NoneSyncing :
    (owner : String) (turns : ℕ → Turn) (rs : List PendingReceipt) (w : Run)
    → Calm turns
    → NoneSyncing w.queue
    → NoneSyncing (sync_loop owner turns rs w).queue
unfolding sync_loop
sync_loop-NoneSyncing owner turns [] w calm h = h
sync_loop-NoneSyncing owner turns (r ∷ rs) w calm h =
    elim (Bool-cases (is_text (turns 0).owner_now owner)) [
      | inl now ↦ rw now (
          follow_rule (λ v. NoneSyncing v.queue) (λ v. NoneSyncing v.queue)
            (after_upload (turns 0).outcome r (attempt (turns 0) r w))
            (attempt-NoneSyncing (turns 0).outcome (turns 0) r w (calm 0) h)
            (sync_loop owner (rest_of turns) rs)
            (λ v. sync_loop-NoneSyncing owner (rest_of turns) rs v (λ n. calm (suc n))))
      | inr away ↦ rw away h
    ]

-- A run that starts with no entry `syncing` leaves none so, however its uploads end.
pub run_sync-NoneSyncing :
    (owner : String) (turns : ℕ → Turn) (q : Queue)
    → Calm turns
    → NoneSyncing q
    → NoneSyncing (run_sync owner turns q).queue
unfolding run_sync
run_sync-NoneSyncing owner turns q calm h =
    sync_loop-NoneSyncing owner turns (queued owner q) (start q) calm h

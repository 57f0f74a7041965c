-- ===== src/Queue/Sync/Kept.antt =====
-- No photo is lost by an upload run: an entry goes only when an upload for it succeeded.
use grocery_genie.Base.{
  ℕ, suc, String, ◌≡◌, refl, ◌∙◌, ◌≢◌, ◌⊎◌, inl, inr, Option, none, some, List, [], ◌∷◌, arith,
  str_eq, eq_iff, Bool-cases, All,
}
use grocery_genie.Errors.{Thrown, is_text}
use grocery_genie.Queue.{
  syncing, PendingReceipt, Queue, modify, update_status, remove_pending_receipt,
}
use grocery_genie.Queue.Store.{entry, entry-modify, entry-remove}
use grocery_genie.Queue.Sync.{
  Turn, Run, after_failure, after_upload, attempt, rest_of, sync_loop, queued, start, run_sync,
}
use grocery_genie.Queue.Sync.Loop.{Judge, follow_rule, Judge-mono}
use grocery_genie.Queue.Sync.Entries.{Settled, after_failure-Settled}

-- What happens to the store while an upload runs leaves the entry of id `j` alone.
abbrev pub Steady : String → (ℕ → Turn) → Type 0
Steady j turns = (n : ℕ) (q : Queue) → entry j ((turns n).meanwhile q) ≡ entry j q

-- The entry holds the photo of `x`, for its owner.
abbrev pub Holds : PendingReceipt → Option PendingReceipt → Type 0
Holds x o =
    (y : PendingReceipt) × (o ≡ some y) × (y.image_uri ≡ x.image_uri) × (y.owner_id ≡ x.owner_id)

-- One of the loop's uploads, for the entry of id `j`, succeeded.
abbrev pub Landed : (ℕ → Turn) → List PendingReceipt → String → Type 0
Landed turns [] j = ⊥
Landed turns (r ∷ rs) j = ((r.id ≡ j) × ((turns 0).outcome ≡ none)) ⊎ Landed (rest_of turns) rs j

Holds-modify :
    (i j : String) (f : PendingReceipt → PendingReceipt) (q : Queue) (x : PendingReceipt)
    → ((r : PendingReceipt) → (f r).id ≡ r.id)
    → ((r : PendingReceipt) → (f r).image_uri ≡ r.image_uri)
    → ((r : PendingReceipt) → (f r).owner_id ≡ r.owner_id)
    → Holds x (entry j q)
    → Holds x (entry j (modify i f q))
Holds-modify i j f q x id image owner (y, e, p, s) = elim (Bool-cases (str_eq i j)) [
  | inl same ↦ (f y, entry-modify i j f q id ∙ rw (same, e) refl, image y ∙ p, owner y ∙ s)
  | inr apart ↦ (y, entry-modify i j f q id ∙ rw apart e, p, s)
]

Holds-remove :
    (i j : String) (q : Queue) (x : PendingReceipt)
    → i ≢ j
    → Holds x (entry j q)
    → Holds x (entry j (remove_pending_receipt i q))
Holds-remove i j q x apart (y, e, p, s) = (y, ground (arith, entry-remove i j q, eq_iff i j), p, s)

module _ (j : String) (x : PendingReceipt) where
  attempt-Holds :
      (t : Turn) (r : PendingReceipt) (w : Run)
      → ((q : Queue) → entry j (t.meanwhile q) ≡ entry j q)
      → Holds x (entry j w.queue)
      → Holds x (entry j (attempt t r w).queue)
  unfolding attempt update_status
  attempt-Holds t r w steady h =
      rw (steady (modify r.id _ w.queue))
        (Holds-modify r.id j _ w.queue x (λ y. refl) (λ y. refl) (λ y. refl) h)

  after_upload-Holds :
      (o : Option Thrown) (r : PendingReceipt) (w : Run)
      → Holds x (entry j w.queue)
      → Judge
          (λ v. Holds x (entry j v.queue) ⊎ ((r.id ≡ j) × (o ≡ none)))
          (λ v. Holds x (entry j v.queue) ⊎ ((r.id ≡ j) × (o ≡ none)))
          (after_upload o r w)
  unfolding after_upload
  after_upload-Holds none r w h = elim (Bool-cases (str_eq r.id j)) [
    | inl same ↦ inr ((eq_iff _ _).0 same, refl)
    | inr apart ↦ inl (Holds-remove r.id j w.queue x (ground (arith, eq_iff r.id j)) h)
  ]
  after_upload-Holds (some e) r w h =
      Judge-mono _ _ _ _ (after_failure e r w) (after_failure-Settled r w e) settled settled
    where
      settled :
          (v : Run)
          → Settled r.id w.queue v
          → Holds x (entry j v.queue) ⊎ ((r.id ≡ j) × (◌≡◌ {A = Option Thrown} (some e) none))
      settled v (f, s, q) =
          inl (rw q (Holds-modify r.id j f w.queue x s.same_id s.same_image s.same_owner h))

  sync_loop-Holds :
      (owner : String) (turns : ℕ → Turn) (rs : List PendingReceipt) (w : Run)
      → Steady j turns
      → Holds x (entry j w.queue)
      → Holds x (entry j (sync_loop owner turns rs w).queue) ⊎ Landed turns rs j
  unfolding sync_loop
  sync_loop-Holds owner turns [] w steady h = inl h
  sync_loop-Holds owner turns (r ∷ rs) w steady h =
      elim (Bool-cases (is_text (turns 0).owner_now owner)) [
        | inl now ↦ rw now (
            follow_rule (λ v. Holds x (entry j v.queue) ⊎ Landed turns (r ∷ rs) j)
              (λ v. Holds x (entry j v.queue) ⊎ ((r.id ≡ j) × ((turns 0).outcome ≡ none)))
              (after_upload (turns 0).outcome r (attempt (turns 0) r w))
              (Judge-mono _ _ _ _ (after_upload (turns 0).outcome r (attempt (turns 0) r w))
                (after_upload-Holds (turns 0).outcome r _
                  (attempt-Holds (turns 0) r w (steady 0) h))
                halted (λ v k. k))
              (sync_loop owner (rest_of turns) rs)
              (λ v.
                carry v (sync_loop owner (rest_of turns) rs v)
                  (sync_loop-Holds owner (rest_of turns) rs v (λ n. steady (suc n)))))
        | inr away ↦ rw away (inl h)
      ]
    where
      halted :
          (v : Run)
          → Holds x (entry j v.queue) ⊎ ((r.id ≡ j) × ((turns 0).outcome ≡ none))
          → Holds x (entry j v.queue) ⊎ Landed turns (r ∷ rs) j
      halted v (inl k) = inl k
      halted v (inr k) = inr (inl k)

      carry :
          (v u : Run)
          → (Holds x (entry j v.queue) → Holds x (entry j u.queue) ⊎ Landed (rest_of turns) rs j)
          → Holds x (entry j v.queue) ⊎ ((r.id ≡ j) × ((turns 0).outcome ≡ none))
          → Holds x (entry j u.queue) ⊎ Landed turns (r ∷ rs) j
      carry v u next (inr k) = inr (inl k)
      carry v u next (inl k) = elim (next k) [ inl e ↦ inl e | inr e ↦ inr (inr e) ]

-- An entry that the rest of the app leaves alone during a run is there after it, with its photo and
-- its owner, unless one of the run's uploads for its id succeeded.
pub run_sync-Holds :
    (owner : String) (turns : ℕ → Turn) (q : Queue) (j : String) (x : PendingReceipt)
    → Steady j turns
    → entry j q ≡ some x
    → Holds x (entry j (run_sync owner turns q).queue) ⊎ Landed turns (queued owner q) j
unfolding run_sync
run_sync-Holds owner turns q j x steady e =
    sync_loop-Holds j x owner turns (queued owner q) (start q) steady (x, e, refl, refl)

-- No round of the loop is for this id.
abbrev pub NotAmong : String → List PendingReceipt → Type 0
NotAmong j rs = All (λ r. r.id ≢ j) rs

entry-modify_ne :
    (i j : String) (f : PendingReceipt → PendingReceipt) (q : Queue)
    → ((r : PendingReceipt) → (f r).id ≡ r.id)
    → i ≢ j
    → entry j (modify i f q) ≡ entry j q
entry-modify_ne i j f q id apart = ground (arith, entry-modify i j f q id, eq_iff i j)

module _ (j : String) where
  attempt-entry :
      (o : Option Thrown) (t : Turn) (r : PendingReceipt) (w : Run)
      → ((q : Queue) → entry j (t.meanwhile q) ≡ entry j q)
      → r.id ≢ j
      → Judge
          (λ v. entry j v.queue ≡ entry j w.queue)
          (λ v. entry j v.queue ≡ entry j w.queue)
          (after_upload o r (attempt t r w))
  unfolding attempt after_upload update_status
  attempt-entry none t r w steady apart = ground (
    arith,
    entry-remove r.id j (t.meanwhile (update_status r.id syncing w.queue)),
    eq_iff r.id j,
    steady (update_status r.id syncing w.queue),
    entry-modify_ne r.id j (λ (x : PendingReceipt). record x { status = syncing }) w.queue
        (λ x. refl) apart,
  )
  attempt-entry (some e) t r w steady apart =
      Judge-mono _ _ _ _ (after_failure e r (attempt t r w))
        (after_failure-Settled r (attempt t r w) e) settled settled
    where
      settled : (v : Run) → Settled r.id (attempt t r w).queue v → entry j v.queue ≡ entry j w.queue
      settled v (f, s, q) = rw q (
          entry-modify_ne r.id j f _ s.same_id apart
          ∙ steady (modify r.id _ w.queue)
          ∙ entry-modify_ne r.id j (λ (x : PendingReceipt). record x { status = syncing }) w.queue
              (λ x. refl) apart)

  sync_loop-entry :
      (owner : String) (turns : ℕ → Turn) (rs : List PendingReceipt) (w : Run)
      → Steady j turns
      → NotAmong j rs
      → entry j (sync_loop owner turns rs w).queue ≡ entry j w.queue
  unfolding sync_loop
  sync_loop-entry owner turns [] w steady apart = refl
  sync_loop-entry owner turns (r ∷ rs) w steady apart =
      elim (Bool-cases (is_text (turns 0).owner_now owner)) [
        | inl now ↦ rw now (
            follow_rule (λ v. entry j v.queue ≡ entry j w.queue)
              (λ v. entry j v.queue ≡ entry j w.queue)
              (after_upload (turns 0).outcome r (attempt (turns 0) r w))
              (attempt-entry (turns 0).outcome (turns 0) r w (steady 0) apart.0)
              (sync_loop owner (rest_of turns) rs)
              (λ v e. sync_loop-entry owner (rest_of turns) rs v (λ n. steady (suc n)) apart.1 ∙ e))
        | inr away ↦ rw away refl
      ]

-- An entry under an id that is not queued for `owner`, another account's photo or a failed one
-- for instance, is not changed at all.
run_sync-entry :
    (owner : String) (turns : ℕ → Turn) (q : Queue) (j : String)
    → Steady j turns
    → NotAmong j (queued owner q)
    → entry j (run_sync owner turns q).queue ≡ entry j q
unfolding run_sync
run_sync-entry owner turns q j steady apart =
    sync_loop-entry j owner turns (queued owner q) (start q) steady apart

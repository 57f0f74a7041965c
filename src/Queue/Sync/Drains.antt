-- ===== src/Queue/Sync/Drains.antt =====
-- A run with the network up and the owner signed in empties the owner's queue.
use grocery_genie.Base.{
  ℕ, suc, ◌+◌, String, ◌≡◌, refl, sym, subst, ◌∙◌, ◌⊎◌, inl, inr, true, none, List, [], ◌∷◌, ◌++◌,
  arith, eq_iff, length, All,
}
use grocery_genie.Errors.{is_text}
use grocery_genie.Queue.{syncing, PendingReceipt, Queue, update_status, remove_pending_receipt}
use grocery_genie.Queue.Store.{entry, entry-modify, entry-remove}
use grocery_genie.Queue.Sync.{
  Turn, Run, after_upload, attempt, rest_of, sync_loop, queued, start, run_sync,
}
use grocery_genie.Queue.Sync.Kept.{Steady}

-- In every round the owner is signed in and the upload succeeds.
pub record AllWell (owner : String) (turns : ℕ → Turn) : Type 0 where
  pub signed_in : (n : ℕ) → is_text (turns n).owner_now owner ≡ true
  pub uploads : (n : ℕ) → (turns n).outcome ≡ none

AllWell-rest :
    {owner : String} {turns : ℕ → Turn} → AllWell owner turns → AllWell owner (rest_of turns)
AllWell-rest a = record { signed_in = λ n. a.signed_in (suc n); uploads = λ n. a.uploads (suc n) }

-- The state after one successful round.
abbrev landed : Turn → PendingReceipt → Run → Run
landed t r w = record (attempt t r w) {
  queue = remove_pending_receipt r.id (attempt t r w).queue;
  deleted = (attempt t r w).deleted ++ r.image_uri ∷ [];
  synced = (attempt t r w).synced + 1;
}

module _ (owner : String) where
  sync_loop-cons :
      (turns : ℕ → Turn) (r : PendingReceipt) (rs : List PendingReceipt) (w : Run)
      → AllWell owner turns
      → sync_loop owner turns (r ∷ rs) w ≡ sync_loop owner (rest_of turns) rs (landed (turns 0) r w)
  unfolding sync_loop after_upload
  sync_loop-cons turns r rs w a = rw (a.signed_in 0, a.uploads 0) refl

  sync_loop-synced :
      (turns : ℕ → Turn) (rs : List PendingReceipt) (w : Run)
      → AllWell owner turns
      → (sync_loop owner turns rs w).synced ≡ w.synced + length rs
  unfolding attempt
  sync_loop-synced turns [] w a = unfold sync_loop in omega arith
  sync_loop-synced turns (r ∷ rs) w a =
      rw (sync_loop-cons turns r rs w a)
        (omega (arith, sync_loop-synced (rest_of turns) rs (landed (turns 0) r w) (AllWell-rest a)))

  landed-none :
      (t : Turn) (r : PendingReceipt) (w : Run) (j : String)
      → ((q : Queue) → entry j (t.meanwhile q) ≡ entry j q)
      → (r.id ≡ j) ⊎ (entry j w.queue ≡ none)
      → entry j (landed t r w).queue ≡ none
  unfolding attempt update_status
  landed-none t r w j steady gone = ground (
    arith,
    entry-remove r.id j (t.meanwhile (update_status r.id syncing w.queue)),
    eq_iff r.id j,
    steady (update_status r.id syncing w.queue),
    entry-modify r.id j (λ (x : PendingReceipt). record x { status = syncing }) w.queue (λ x. refl),
  )

  sync_loop-none :
      (turns : ℕ → Turn) (rs : List PendingReceipt) (w : Run) (j : String)
      → AllWell owner turns
      → Steady j turns
      → entry j w.queue ≡ none
      → entry j (sync_loop owner turns rs w).queue ≡ none
  sync_loop-none turns [] w j a steady gone = unfold sync_loop in gone
  sync_loop-none turns (r ∷ rs) w j a steady gone = rw (sync_loop-cons turns r rs w a) (
      sync_loop-none (rest_of turns) rs (landed (turns 0) r w) j (AllWell-rest a)
        (λ n. steady (suc n)) (landed-none (turns 0) r w j (steady 0) (inr gone)))

  sync_loop-All-none :
      (turns : ℕ → Turn) (rs : List PendingReceipt) (w : Run)
      → AllWell owner turns
      → ((j : String) → Steady j turns)
      → All (λ r. entry r.id (sync_loop owner turns rs w).queue ≡ none) rs
  sync_loop-All-none turns [] w a steady = tt
  sync_loop-All-none turns (r ∷ rs) w a steady =
      subst (λ v. All (λ p. entry p.id v.queue ≡ none) (r ∷ rs))
        (sym (sync_loop-cons turns r rs w a))
        (
          sync_loop-none (rest_of turns) rs (landed (turns 0) r w) r.id (AllWell-rest a)
              (λ n. steady r.id (suc n))
              (landed-none (turns 0) r w r.id (steady r.id 0) (inl refl)),
          sync_loop-All-none (rest_of turns) rs (landed (turns 0) r w) (AllWell-rest a)
              (λ j n. steady j (suc n)),
        )

-- When in every round the owner is signed in and the upload succeeds, and the rest of the app
-- leaves the entries alone, the run counts every pending photo of the owner as synced and removes
-- it.
pub run_sync-AllWell :
    (owner : String) (turns : ℕ → Turn) (q : Queue)
    → AllWell owner turns
    → ((j : String) → Steady j turns)
    → ((run_sync owner turns q).synced ≡ length (queued owner q))
      × All (λ r. entry r.id (run_sync owner turns q).queue ≡ none) (queued owner q)
unfolding run_sync
run_sync-AllWell owner turns q a steady = (
  sync_loop-synced owner turns (queued owner q) (start q) a ∙ omega arith,
  sync_loop-All-none owner turns (queued owner q) (start q) a steady,
)

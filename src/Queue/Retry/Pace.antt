-- ===== src/Queue/Retry/Pace.antt =====
-- The pace of the retries, and what stops them.
use grocery_genie.Base.{
  ℕ, zero, suc, ◌+◌, ◌≤◌, ◌≡◌, refl, true, false, none, some, List, [], ◌∷◌, arith, All,
}
use grocery_genie.Queue.Retry.{
  sync_retry_delays_ms, at_most_last, retry_delay, Loop, synced, fire, clean_up, failing,
}

abbrev Rising : List ℕ → Type 0
Rising [] = Unit
Rising (d ∷ []) = Unit
Rising (d ∷ e ∷ ds) = (d ≤ e) × Rising (e ∷ ds)

at_most_last_mono : (i : ℕ) (ds : List ℕ) → Rising ds → at_most_last i ds ≤ at_most_last (suc i) ds
at_most_last_mono i [] h = omega arith
at_most_last_mono i (d ∷ []) h = omega arith
at_most_last_mono zero (d ∷ e ∷ []) h = h.0
at_most_last_mono zero (d ∷ e ∷ f ∷ ds) h = h.0
at_most_last_mono (suc i) (d ∷ e ∷ ds) h = at_most_last_mono i (e ∷ ds) h.1

at_most_last_bounds :
    (i hi d : ℕ) (ds : List ℕ)
    → Rising (d ∷ ds)
    → All (λ x. x ≤ hi) (d ∷ ds)
    → (d ≤ at_most_last i (d ∷ ds)) × (at_most_last i (d ∷ ds) ≤ hi)
at_most_last_bounds i hi d [] h b = (omega arith, b.0)
at_most_last_bounds zero hi d (e ∷ ds) h b = (omega arith, b.0)
at_most_last_bounds (suc i) hi d (e ∷ ds) h b =
    let next = at_most_last_bounds i hi e ds h.1 b.1 in (omega arith, next.1)

failing_lem :
    (n : ℕ) (l : Loop)
    → l.stopped ≡ false
    → ((failing n l).stopped ≡ false)
      × ((failing n l).retries ≡ l.retries + n)
      × ((failing n l).syncs ≡ l.syncs + n)
unfolding failing
failing_lem zero l h = ground arith
failing_lem (suc n) l h = ground (arith, failing_lem n (fire true (synced true l)))

-- While uploads keep failing, in an effect not yet cleaned up, the run after `n` retries is
-- followed by a timer of retry_delay(n): between 15 seconds and 5 minutes, and never shorter than
-- the one before. A run that leaves no photo waiting starts the count again, and after the cleanup
-- no run sets a timer.
retry_pace :
    (n : ℕ) (l : Loop)
    → l.stopped ≡ false
    → l.retries ≡ 0
    → let s = synced true (failing n l) in
      (s.timer ≡ some (retry_delay n))
      × (15000 ≤ retry_delay n)
      × (retry_delay n ≤ 300000)
      × (retry_delay n ≤ retry_delay (suc n))
      × ((synced false s).retries ≡ 0)
      × ((synced true (clean_up s)).timer ≡ none)
unfolding synced clean_up
retry_pace n l h z =
    let run = failing_lem n l h in
    let range : (15000 ≤ retry_delay n) × (retry_delay n ≤ 300000) =
      unfold retry_delay in
      at_most_last_bounds n 300000 15000 (30000 ∷ 60000 ∷ 120000 ∷ 300000 ∷ []) (omega arith)
        (omega arith) in
    let next : retry_delay n ≤ retry_delay (suc n) =
      unfold retry_delay in at_most_last_mono n sync_retry_delays_ms (omega arith) in
    let count : (failing n l).retries ≡ n = omega (arith, run.1) in
    (rw (run.0, count) refl, range.0, range.1, next, rw run.0 refl, ground arith)

-- ===== src/Queue/Retry.antt =====
-- When the app starts an upload run: mobile/src/hooks/useSyncQueue.ts. Times are milliseconds. The
-- hook's local variables are a state, and its timers are the delays after which they fire.
pub mod Pace
use grocery_genie.Base.{
  ℕ, zero, suc, ◌+◌, ◌-◌, ◌*◌, ◌/◌, ◌%◌, ◌≤◌, ◌<◌, String, ◌≡◌, refl, sym, ap, subst, ◌∙◌, ◌≢◌, ◌↔◌,
  ◌⊎◌, inl, inr, Bool, true, false, not, ◌&&◌, ◌||◌, Option, none, some, List, [], ◌∷◌, ◌++◌, map,
  append-nil, append_assoc, map-append, arith, str_eq, eq_iff, eq_refl, ltb, leb, ◌==◌,
  if◌then◌else◌, ltb→lt, leb→le, ==_iff, Bool-cases, Option-cases, or_else, is_some, length, select,
  find, any, take, drop, All, length-append, All-append, All-map, All-select, All-select_of,
  length-take-le, select-append,
}
use grocery_genie.Errors.{is_text}
use grocery_genie.Queue.{PendingReceipt, Queue, Status, pending, syncing, failed}
use grocery_genie.Queue.Sync.{is_pending}

-- SYNC_RETRY_DELAYS_MS
abbrev pub sync_retry_delays_ms : List ℕ
sync_retry_delays_ms = 15000 ∷ 30000 ∷ 60000 ∷ 120000 ∷ 300000 ∷ []

abbrev pub at_most_last : ℕ → List ℕ → ℕ
at_most_last n [] = 0
at_most_last n (d ∷ []) = d
at_most_last zero (d ∷ e ∷ ds) = d
at_most_last (suc n) (d ∷ e ∷ ds) = at_most_last n (e ∷ ds)

-- SYNC_RETRY_DELAYS_MS[Math.min(retries, SYNC_RETRY_DELAYS_MS.length - 1)]
unfoldable pub retry_delay : ℕ → ℕ
retry_delay retries = at_most_last retries sync_retry_delays_ms

unfoldable pub waiting_to_retry : String → Queue → Bool
waiting_to_retry owner q =
    any (λ r. str_eq r.owner_id owner && is_pending r.status && r.last_attempt_failed) q

abbrev pub not_failed : Status → Bool
not_failed failed = false
not_failed _ = true

unfoldable pub queued_count : String → Queue → ℕ
queued_count owner q = length (select (λ r. not_failed r.status && str_eq r.owner_id owner) q)

-- The guard at the head of the effect; `consent` is unknown (`none`), granted or refused.
unfoldable pub effect_runs : Bool → Option String → ℕ → Option Bool → Bool
effect_runs is_connected none count consent = false
effect_runs is_connected (some owner) count consent =
    is_connected && not (str_eq owner "") && not (count == 0) && or_else consent true

pub record Loop : Type 0 where
  pub stopped : Bool
  pub retries : ℕ
  pub timer : Option ℕ
  pub syncs : ℕ

-- sync(), up to `await syncNow()`
unfoldable pub sync : Loop → Loop
sync l = record l { timer = none; syncs = l.syncs + 1 }

-- sync(), once the run is over; `waits` is waitingToRetry(ownerId).
unfoldable pub synced : Bool → Loop → Loop
synced waits l =
    if l.stopped
    then l
    else if not waits
    then record l { retries = 0 }
    else record l { timer = some (retry_delay l.retries); retries = l.retries + 1 }

-- The timer's callback; in the background the foreground listener retries instead.
unfoldable pub fire : Bool → Loop → Loop
unfolding sync
fire active l = if active then sync (record l { timer = none }) else record l { timer = none }

-- The effect's cleanup.
unfoldable pub clean_up : Loop → Loop
clean_up l = record l { stopped = true; timer = none }

-- `n` runs in a row that each end with a photo waiting to retry, the timer firing after each.
unfoldable pub failing : ℕ → Loop → Loop
unfolding fire synced
failing zero l = l
failing (suc n) l = failing n (fire true (synced true l))

-- ===== src/Queue/Runs.antt =====
-- Who may run an upload: `syncPendingReceipts` of
-- mobile/src/features/receipt-capture/services/offlineQueue.ts. `in_flight` is the module variable
-- `inFlight`; a promise is the number of its run. `runs` lists every run made so far, newest first.
pub mod Order
pub mod Exclusive
use grocery_genie.Base.{
  ℕ, zero, suc, ◌+◌, ◌-◌, ◌*◌, ◌/◌, ◌%◌, ◌≤◌, ◌<◌, String, ◌≡◌, refl, sym, ap, subst, ◌∙◌, ◌≢◌, ◌↔◌,
  ◌⊎◌, inl, inr, Bool, true, false, not, ◌&&◌, ◌||◌, Option, none, some, List, [], ◌∷◌, ◌++◌, map,
  append-nil, append_assoc, map-append, arith, str_eq, eq_iff, eq_refl, ltb, leb, ◌==◌,
  if◌then◌else◌, ltb→lt, leb→le, ==_iff, Bool-cases, Option-cases, or_else, is_some, length, select,
  find, any, take, drop, All, length-append, All-append, All-map, All-select, All-select_of,
  length-take-le, select-append,
}

pub data Phase : Type 0 where
  waiting running done : Phase

pub record Entry : Type 0 where
  pub number : ℕ
  pub owner : String
  -- the run that this one starts after
  pub previous : Option ℕ
  pub phase : Phase

pub record Scheduler : Type 0 where
  pub in_flight : Option Entry
  pub runs : List Entry

abbrev pub first_phase : Option Entry → Phase
first_phase none = running
first_phase (some e) = waiting

abbrev pub number_of : Option Entry → Option ℕ
number_of none = none
number_of (some e) = some e.number

abbrev pub is_for : Option Entry → String → Bool
is_for none owner = false
is_for (some e) owner = str_eq e.owner owner

abbrev pub new_entry : Scheduler → String → Entry
new_entry s owner = record {
  number = length s.runs;
  owner = owner;
  previous = number_of s.in_flight;
  phase = first_phase s.in_flight;
}

-- A call of syncPendingReceipts: the account's own run is shared; any other run goes first.
unfoldable pub request : String → Scheduler → Scheduler
request owner s =
    if is_for s.in_flight owner
    then s
    else record { in_flight = some (new_entry s owner); runs = new_entry s owner ∷ s.runs }

abbrev pub same_run : ℕ → Option Entry → Bool
same_run n none = false
same_run n (some e) = e.number == n

abbrev pub finish : Phase → Phase
finish running = done
finish p = p

unfoldable pub finish_entry : ℕ → Entry → Entry
finish_entry n e = if e.number == n then record e { phase = finish e.phase } else e

abbrev pub is_running : Phase → Bool
is_running running = true
is_running _ = false

unfoldable pub phase_of : ℕ → List Entry → Option Phase
phase_of n [] = none
phase_of n (e ∷ es) = if e.number == n then some e.phase else phase_of n es

abbrev pub phase_is_running : Option Phase → Bool
phase_is_running none = false
phase_is_running (some p) = is_running p

-- A running upload settles, and `finally` clears `inFlight` if it is still this run.
unfoldable pub settle : ℕ → Scheduler → Scheduler
settle n s =
    if phase_is_running (phase_of n s.runs)
    then record {
      in_flight = if same_run n s.in_flight then none else s.in_flight;
      runs = map (finish_entry n) s.runs;
    }
    else s

abbrev pub is_done : Option Phase → Bool
is_done (some done) = true
is_done _ = false

abbrev pub previous_done : Option ℕ → List Entry → Bool
unfolding phase_of
previous_done none es = true
previous_done (some p) es = is_done (phase_of p es)

abbrev pub wake : Phase → Phase
wake waiting = running
wake p = p

-- previous.then(() => runSync(deps)): run `n` starts once the run before it has settled. `all` is
-- the whole list.
unfoldable pub start_entry : ℕ → List Entry → Entry → Entry
start_entry n all e =
    if e.number == n && previous_done e.previous all then record e { phase = wake e.phase } else e

unfoldable pub begin : ℕ → Scheduler → Scheduler
begin n s = record s { runs = map (start_entry n s.runs) s.runs }

pub data Event : Type 0 where
  requested : String → Event
  begun settled : ℕ → Event

unfoldable pub step : Event → Scheduler → Scheduler
step (requested owner) s = request owner s
step (begun n) s = begin n s
step (settled n) s = settle n s

unfoldable pub run_events : List Event → Scheduler → Scheduler
run_events [] s = s
run_events (e ∷ es) s = run_events es (step e s)

abbrev pub idle : Scheduler
idle = record { in_flight = none; runs = [] }

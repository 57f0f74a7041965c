-- ===== src/Queue/Runs/Exclusive.antt =====
-- Two upload runs are never under way at once.
use grocery_genie.Base.{
  nat_eq, string_eq, ℕ, ◌≤◌, ◌<◌, ◌≡◌, refl, sym, ap, subst, ◌∙◌, ◌≢◌, inl, inr, true, Option, none,
  some, List, [], ◌∷◌, map, arith, ◌==◌, if◌then◌else◌, Bool-cases, length, select,
}
use grocery_genie.Queue.Runs.{
  waiting, done, Entry, Scheduler, same_run, finish_entry, is_running, phase_of, phase_is_running,
  settle, is_done, previous_done, start_entry, begin, Event, requested, begun, settled, step,
  run_events, idle,
}
use grocery_genie.Queue.Runs.Order.{
  AllDone, top, Ordered, Current, Inv, request-Inv, Advances, Ready, Ordered-map,
  finish_entry-Advances, finish_entry-Ready, start_entry-Advances,
}

-- The list `all` agrees with its part `es` on the runs that `es` holds.
abbrev Agrees : List Entry → List Entry → Type 0
Agrees all es = (k : ℕ) → k < length es → phase_of k all ≡ phase_of k es

Agrees-tail :
    (all es : List Entry) (e : Entry) → e.number ≡ length es → Agrees all (e ∷ es) → Agrees all es
unfolding phase_of
Agrees-tail all es e num agree k h = agree k (omega arith) ∙ ground arith

settled_before :
    (all : List Entry) (e : Entry) (es : List Entry)
    → Ordered es
    → Agrees all es
    → e.previous ≡ top es
    → es ≢ []
    → previous_done e.previous all ≡ true
    → AllDone es
settled_before all e [] h agree p full d = absurd (full refl)
settled_before all e (f ∷ fs) (num, started, waits, h) agree p full d =
    let here : phase_of f.number (f ∷ fs) ≡ some f.phase = unfold phase_of in ground arith in
    let seen : phase_of f.number all ≡ some f.phase = agree f.number (omega arith) ∙ here in
    let through : previous_done (some f.number) all ≡ true = rw p at d in
    let over : is_done (some f.phase) ≡ true =
      subst (λ o. is_done o ≡ true) seen (unfold phase_of in through) in
    (ground arith, started (ground arith))

start_entry-waits :
    (n : ℕ) (all : List Entry) (e : Entry)
    → e.phase ≡ waiting
    → (start_entry n all e).phase ≢ waiting
    → previous_done e.previous all ≡ true
unfolding start_entry
start_entry-waits n all e w k = ground arith

start_entry-Ready :
    (n : ℕ) (all es : List Entry) → Ordered es → Agrees all es → Ready (start_entry n all) es
start_entry-Ready n all [] h agree = tt
start_entry-Ready n all (e ∷ es) (num, started, waits, h) agree =
    let agree' = Agrees-tail all es e num agree in
    (
      (λ w k.
          settled_before all e es h agree' (waits w).0 (waits w).1 (start_entry-waits n all e w k)),
      start_entry-Ready n all es h agree',
    )

-- A change that leaves what `in_flight` shows of the newest run.
Current-map :
    {g : Entry → Entry} (a : Advances g) (o : Option Entry) (es : List Entry)
    → ((e : Entry) → o ≡ none → e.phase ≡ done → (g e).phase ≡ done)
    → ((f e : Entry) → o ≡ some f → f.number ≡ e.number → e.phase ≢ done → (g e).phase ≢ done)
    → Current o es
    → Current o (map g es)
Current-map a o [] over open_run c = c
Current-map a none (e ∷ es) over open_run c = over e refl c
Current-map a (some f) (e ∷ es) over open_run c =
    (c.0 ∙ sym (a.number e), c.1 ∙ sym (a.owner e), open_run f e refl c.0 c.2)

begin-Inv : (n : ℕ) (s : Scheduler) → Inv s → Inv (begin n s)
unfolding begin
begin-Inv n s v = record {
  ordered =
      Ordered-map (start_entry-Advances n s.runs) s.runs v.ordered
        (start_entry-Ready n s.runs s.runs v.ordered (λ k h. refl));
  current =
      Current-map (start_entry-Advances n s.runs) s.in_flight s.runs
        (λ e o h. ground (arith, (start_entry-Advances n s.runs).done_stays e))
        (λ f e o num h. unfold start_entry in ground arith) v.current;
}

settle-Current :
    (n : ℕ) (o : Option Entry) (es : List Entry)
    → Current o es
    → phase_is_running (phase_of n es) ≡ true
    → Current (if same_run n o then none else o) (map (finish_entry n) es)
unfolding finish_entry phase_of
settle-Current n none [] c r = refl
settle-Current n (some f) [] c r = cc
settle-Current n none (e ∷ es) c r = ground arith
settle-Current n (some f) (e ∷ es) c r = elim (Bool-cases (f.number == n)) [
  | inl same ↦ rw same (ground arith)
  | inr other ↦ rw other (ground arith, ground arith, ground arith)
]

settle-Inv : (n : ℕ) (s : Scheduler) → Inv s → Inv (settle n s)
unfolding settle
settle-Inv n s v = elim (Bool-cases (phase_is_running (phase_of n s.runs))) [
  | inl on ↦ rw on (record {
    ordered = Ordered-map (finish_entry-Advances n) s.runs v.ordered (finish_entry-Ready n s.runs);
    current = settle-Current n s.in_flight s.runs v.current on;
  })
  | inr off ↦ rw off v
]

pub step-Inv : (e : Event) (s : Scheduler) → Inv s → Inv (step e s)
unfolding step
step-Inv (requested owner) s v = request-Inv owner s v
step-Inv (begun n) s v = begin-Inv n s v
step-Inv (settled n) s v = settle-Inv n s v

run_events-Inv : (es : List Event) (s : Scheduler) → Inv s → Inv (run_events es s)
unfolding run_events
run_events-Inv [] s v = v
run_events-Inv (e ∷ es) s v = run_events-Inv es (step e s) (step-Inv e s v)

-- The runs under way.
abbrev pub active : List Entry → List Entry
active es = select (λ e. is_running e.phase) es

active_of_AllDone : (es : List Entry) → AllDone es → active es ≡ []
active_of_AllDone [] h = refl
active_of_AllDone (e ∷ es) h = rw h.0 (active_of_AllDone es h.1)

active_one : (es : List Entry) → Ordered es → length (active es) ≤ 1
active_one [] h = omega arith
active_one (e ∷ es) (num, started, waits, h) = elim (Bool-cases (is_running e.phase)) [
  | inl on ↦ rw on (omega (arith, ap length (active_of_AllDone es (started (ground arith)))))
  | inr off ↦ rw off (active_one es h)
]

-- However calls, starts and ends of upload runs follow one another, at most one run is under way,
-- and `inFlight` names the newest run, with its account, exactly while that run is not over.
pub active_at_most_one :
    (es : List Event)
    → let s = run_events es idle in (length (active s.runs) ≤ 1) × Current s.in_flight s.runs
active_at_most_one es =
    let v = run_events-Inv es idle (record { ordered = tt; current = refl }) in
    (active_one (run_events es idle).runs v.ordered, v.current)

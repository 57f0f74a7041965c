-- ===== src/Queue/Runs/Order.antt =====
-- The order in which upload runs are made, and changes of phase that keep it.
use grocery_genie.Base.{
  nat_eq, string_eq, ℕ, suc, String, ◌≡◌, refl, sym, ap, ◌∙◌, ◌≢◌, ◌⊎◌, inl, inr, Option, none,
  some, List, [], ◌∷◌, map, arith, Bool-cases, length, All,
}
use grocery_genie.Queue.Runs.{
  Phase, waiting, running, done, Entry, Scheduler, is_for, new_entry, request, finish_entry,
  start_entry,
}

abbrev pub AllDone : List Entry → Type 0
AllDone es = All (λ e. e.phase ≡ done) es

abbrev pub top : List Entry → Option ℕ
top [] = none
top (e ∷ es) = some e.number

-- Runs are numbered from 0 upwards; a run that waits names the one before it, and one that has
-- started has only settled runs before it.
abbrev pub Ordered : List Entry → Type 0
Ordered [] = Unit
Ordered (e ∷ es) =
    (e.number ≡ length es)
    × (e.phase ≢ waiting → AllDone es)
    × (e.phase ≡ waiting → (e.previous ≡ top es) × (es ≢ []))
    × Ordered es

-- `in_flight` is the newest run, unless that has settled.
abbrev pub Current : Option Entry → List Entry → Type 0
Current o [] = o ≡ none
Current none (e ∷ es) = e.phase ≡ done
Current (some f) (e ∷ es) = (f.number ≡ e.number) × (f.owner ≡ e.owner) × (e.phase ≢ done)

pub record Inv (s : Scheduler) : Type 0 where
  pub ordered : Ordered s.runs
  pub current : Current s.in_flight s.runs

pub is_waiting-cases : (p : Phase) → (p ≡ waiting) ⊎ (p ≢ waiting)
is_waiting-cases waiting = inl refl
is_waiting-cases running = inr (λ k. cc)
is_waiting-cases done = inr (λ k. cc)

pub Current-AllDone : (es : List Entry) → Ordered es → Current none es → AllDone es
Current-AllDone [] o c = tt
Current-AllDone (e ∷ es) o c = (c, o.1 (ground arith))

pub new_entry-Inv :
    (o : Option Entry) (es : List Entry) (owner : String)
    → Ordered es
    → Current o es
    → let e = new_entry (record { in_flight = o; runs = es }) owner in
      Inv (record { in_flight = some e; runs = e ∷ es })
new_entry-Inv none es owner h c = record {
  ordered = (refl, λ w. Current-AllDone es h c, λ w. cc, h);
  current = (refl, refl, λ w. cc);
}
new_entry-Inv (some f) [] owner h c = cc
new_entry-Inv (some f) (e ∷ es) owner h c = record {
  ordered = (refl, λ w. absurd (w refl), λ w. (ap some c.0, λ k. cc), h);
  current = (refl, refl, λ w. cc);
}

pub request-Inv : (owner : String) (s : Scheduler) → Inv s → Inv (request owner s)
unfolding request
request-Inv owner s v = elim (Bool-cases (is_for s.in_flight owner)) [
  | inl same ↦ rw same v
  | inr new ↦ rw new (new_entry-Inv s.in_flight s.runs owner v.ordered v.current)
]

-- A change of phases that neither renames a run nor takes it back.
pub record Advances (g : Entry → Entry) : Type 0 where
  pub number : (e : Entry) → (g e).number ≡ e.number
  pub owner : (e : Entry) → (g e).owner ≡ e.owner
  pub previous : (e : Entry) → (g e).previous ≡ e.previous
  pub done_stays : (e : Entry) → e.phase ≡ done → (g e).phase ≡ done
  pub waited : (e : Entry) → (g e).phase ≡ waiting → e.phase ≡ waiting

-- A run that the change starts has only settled runs before it.
abbrev pub Ready : (Entry → Entry) → List Entry → Type 0
Ready g [] = Unit
Ready g (e ∷ es) = (e.phase ≡ waiting → (g e).phase ≢ waiting → AllDone es) × Ready g es

pub length-map : (g : Entry → Entry) (es : List Entry) → length (map g es) ≡ length es
length-map g [] = refl
length-map g (e ∷ es) = ap suc (length-map g es)

module _ {g : Entry → Entry} (a : Advances g) where
  pub AllDone-map : (es : List Entry) → AllDone es → AllDone (map g es)
  AllDone-map [] h = tt
  AllDone-map (e ∷ es) h = (a.done_stays e h.0, AllDone-map es h.1)

  pub top-map : (es : List Entry) → top (map g es) ≡ top es
  top-map [] = refl
  top-map (e ∷ es) = ap some (a.number e)

  pub map-ne-nil : (es : List Entry) → es ≢ [] → map g es ≢ []
  map-ne-nil [] h = absurd (h refl)
  map-ne-nil (e ∷ es) h = λ k. cc

  pub Ordered-map : (es : List Entry) → Ordered es → Ready g es → Ordered (map g es)
  Ordered-map [] h r = tt
  Ordered-map (e ∷ es) (num, started, waits, h) (now, r) = (
    a.number e ∙ num ∙ sym (length-map g es),
    (λ w. AllDone-map es (go (is_waiting-cases e.phase) w)),
    (λ w. (
      a.previous e ∙ (waits (a.waited e w)).0 ∙ sym (top-map es),
      map-ne-nil es (waits (a.waited e w)).1,
    )),
    Ordered-map es h r,
  )
    where
      go : (e.phase ≡ waiting) ⊎ (e.phase ≢ waiting) → (g e).phase ≢ waiting → AllDone es
      go (inl w) k = now w k
      go (inr w) k = started w

module _ (n : ℕ) where
  pub finish_entry-Advances : Advances (finish_entry n)
  unfolding finish_entry
  finish_entry-Advances = record {
    number = λ e. ground arith;
    owner = λ e. ground arith;
    previous = λ e. ground arith;
    done_stays = λ e h. ground arith;
    waited = λ e h. ground arith;
  }

  pub finish_entry-Ready : (es : List Entry) → Ready (finish_entry n) es
  unfolding finish_entry
  finish_entry-Ready [] = tt
  finish_entry-Ready (e ∷ es) = ((λ w k. absurd (ground arith)), finish_entry-Ready es)

  pub start_entry-Advances : (all : List Entry) → Advances (start_entry n all)
  unfolding start_entry
  start_entry-Advances all = record {
    number = λ e. ground arith;
    owner = λ e. ground arith;
    previous = λ e. ground arith;
    done_stays = λ e h. ground arith;
    waited = λ e h. ground arith;
  }

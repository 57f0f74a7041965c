-- ===== src/Auth/Taps/Once.antt =====
-- A tap is opened at most once, and only for the account that is signed in.
use grocery_genie.Base.{
  String, ◌≡◌, refl, ap, subst, ◌↔◌, ◌⊎◌, inl, inr, Bool, true, false, ◌||◌, Option, none, some,
  List, [], ◌∷◌, arith, eq_iff, eq_refl, Bool-cases, All,
}
use grocery_genie.Auth.Store.{Session}
use grocery_genie.Auth.Taps.{
  Tap, State, has, signed_out, spend, holds, offer_tap, take_from, take_tap, switched, drop_held,
  session_changed, capture_taps, Event, arrived, captured, opened_next, session_is, step, run,
}

abbrev pub NoRepeat : List String → Type 0
NoRepeat [] = Unit
NoRepeat (i ∷ is) = (has i is ≡ false) × NoRepeat is

-- The tap held is not spent, and nobody is signed out while one is held.
abbrev pub Held : Option Tap → List String → Session → Type 0
Held none taken a = Unit
Held (some t) taken a = (has t.id taken ≡ false) × (signed_out a ≡ false)

pub record Inv (s : State) : Type 0 where
  pub spent : All (λ i. has i s.taken ≡ true) s.opened
  pub once : NoRepeat s.opened
  pub held : Held s.pending s.taken s.session

has-cons : (i j : String) (is : List String) → has i is ≡ true → has i (j ∷ is) ≡ true
has-cons i j is h = ground arith

All-has-cons :
    (j : String) (is taken : List String)
    → All (λ i. has i taken ≡ true) is
    → All (λ i. has i (j ∷ taken) ≡ true) is
All-has-cons j [] taken h = tt
All-has-cons j (i ∷ is) taken h = (has-cons i j taken h.0, All-has-cons j is taken h.1)

has-false :
    (j : String) (is taken : List String)
    → All (λ i. has i taken ≡ true) is
    → has j taken ≡ false
    → has j is ≡ false
has-false j [] taken h n = refl
has-false j (i ∷ is) taken h n =
    ground (arith, eq_iff i j, has-false j is taken h.1 n, ap (λ k. has k taken))

-- No tap can be held while nobody is signed in.
Held-signed_out :
    (o : Option Tap) (taken : List String) (a : Session)
    → signed_out a ≡ true
    → Held o taken a
    → o ≡ none
Held-signed_out none taken a out h = refl
Held-signed_out (some t) taken a out h = absurd (ground arith)

spend-Inv :
    (clears : Bool) (i : String) (s : State) → s.pending ≡ none → Inv s → Inv (spend clears i s)
unfolding spend
spend-Inv clears i s e v = record {
  spent = All-has-cons i s.opened s.taken v.spent;
  once = v.once;
  held = rw e tt;
}

offer_tap-Inv : (clears : Bool) (o : Option Tap) (s : State) → Inv s → Inv (offer_tap clears o s)
unfolding offer_tap
offer_tap-Inv clears none s v = v
offer_tap-Inv clears (some t) s v = elim (Bool-cases (signed_out s.session)) [
  | inl out ↦
      ground
        (arith, spend-Inv clears t.id s (Held-signed_out s.pending s.taken s.session out v.held) v)
  | inr signed ↦ elim (Bool-cases t.opens) [
    | inr idle ↦ rw idle v
    | inl opens ↦ elim (Bool-cases (has t.id s.taken)) [
      | inl old ↦ rw (opens, old) v
      | inr free ↦ elim (Bool-cases (holds s.pending t.id)) [
        | inl held ↦ rw (opens, free, signed, held) v
        | inr other ↦
            rw (opens, free, signed, other)
              (record { spent = v.spent; once = v.once; held = (free, signed) })
      ]
    ]
  ]
]

take_from-Inv :
    (clears : Bool) (o : Option Tap) (s : State)
    → s.pending ≡ o
    → Inv s
    → Inv (take_from clears o s).0
take_from-Inv clears none s e v = v
take_from-Inv clears (some t) s e v =
    let held : Held (some t) s.taken s.session = subst (λ o. Held o s.taken s.session) e v.held in
    unfold spend in
    record {
      spent = (ground (arith, eq_refl t.id), All-has-cons t.id s.opened s.taken v.spent);
      once = (has-false t.id s.opened s.taken v.spent held.0, v.once);
      held = tt;
    }

drop_held-Inv :
    (clears : Bool) (o : Option Tap) (s : State)
    → s.pending ≡ o
    → All (λ i. has i s.taken ≡ true) s.opened
    → NoRepeat s.opened
    → Inv (drop_held clears o s)
drop_held-Inv clears none s e spent once = record { spent = spent; once = once; held = rw e tt }
drop_held-Inv clears (some t) s e spent once =
    unfold spend in
    record { spent = All-has-cons t.id s.opened s.taken spent; once = once; held = tt }

Held-signed_in :
    (o : Option Tap) (taken : List String) (a b : Session)
    → signed_out b ≡ false
    → Held o taken a
    → Held o taken b
Held-signed_in none taken a b h k = tt
Held-signed_in (some t) taken a b h k = (k.0, h)

session_changed-Inv :
    (clears : Bool) (a : Session) (s : State) → Inv s → Inv (session_changed clears a s)
unfolding session_changed
session_changed-Inv clears a s v = elim (Bool-cases (signed_out a || switched s.session a)) [
  | inl drops ↦
      rw drops (drop_held-Inv clears s.pending (record s { session = a }) refl v.spent v.once)
  | inr stays ↦ rw stays (record {
    spent = v.spent;
    once = v.once;
    held = Held-signed_in s.pending s.taken s.session a (ground arith) v.held;
  })
]

step-Inv : (clears : Bool) (e : Event) (s : State) → Inv s → Inv (step clears e s)
unfolding step capture_taps take_tap
step-Inv clears (arrived t) s v =
    offer_tap-Inv clears (some t) (record s { stored = some t })
      (record { spent = v.spent; once = v.once; held = v.held })
step-Inv clears captured s v = offer_tap-Inv clears s.stored s v
step-Inv clears opened_next s v = take_from-Inv clears s.pending s refl v
step-Inv clears (session_is a) s v = session_changed-Inv clears a s v

run-Inv : (clears : Bool) (es : List Event) (s : State) → Inv s → Inv (run clears es s)
unfolding run
run-Inv clears [] s v = v
run-Inv clears (e ∷ es) s v = run-Inv clears es (step clears e s) (step-Inv clears e s v)

abbrev pub launch : Option Tap → Session → State
launch stored a = record { pending = none; taken = []; stored = stored; session = a; opened = [] }

-- Whatever order of taps, reads of the stored tap, openings and session changes follows a launch:
-- no tap is opened twice, the tap held was not opened or spent before, and none is held while
-- nobody is signed in.
pub run-launch-Inv :
    (clears : Bool) (stored : Option Tap) (a : Session) (es : List Event)
    → Inv (run clears es (launch stored a))
run-launch-Inv clears stored a es =
    run-Inv clears es (launch stored a) (record { spent = tt; once = tt; held = tt })

-- A held tap is dropped by a change of the session exactly when nobody is signed in after it, or
-- both sessions name their user and differ in it.
session_changed-drops_iff :
    (clears : Bool) (a : Session) (s : State) (t : Tap)
    → s.pending ≡ some t
    → ((session_changed clears a s).pending ≡ none)
      ↔ ((signed_out a ≡ true) ⊎ (switched s.session a ≡ true))
unfolding session_changed spend
session_changed-drops_iff clears a s t e = ground arith

-- While the session names no user, as after each sign-in or token refresh of the app, a change to
-- any session that is signed in, another account's too, leaves the tap held.
session_changed_unnamed :
    (clears : Bool) (a : Session) (s : State) (t : Tap)
    → s.pending ≡ some t
    → s.session.user_id ≡ none
    → signed_out a ≡ false
    → (session_changed clears a s).pending ≡ some t
unfolding session_changed
session_changed_unnamed clears a s t e u h = ground arith

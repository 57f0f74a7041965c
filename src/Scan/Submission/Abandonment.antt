-- ===== src/Scan/Submission/Abandonment.antt =====
-- The capture-stage abandonment event, over any sequence of what happens on the screen.
use grocery_genie.Base.{
  ℕ, suc, ◌+◌, ◌≤◌, String, ◌≡◌, refl, Bool, false, List, [], ◌∷◌, arith, if◌then◌else◌,
}
use grocery_genie.Scan.Submission.{
  capturing, Screen, Surroundings, Network, unreadable, connected, fail, queue_photo, submit,
  network_answered, begin_submit, Answer, scanned, refused, answered, capture, record_abandon,
  start_attempt, pill_over,
}
use grocery_genie.Scan.Submission.Endings.{capture_settles}

pub data Happening : Type 0 where
  captures : Surroundings → Network → String → String → Answer → Happening
  leaves : Bool → Happening
  attempts : Happening
  pill_gone : Happening

unfoldable pub happen : Happening → Screen → Screen
happen (captures w net uri mime_type a) s = capture w net uri mime_type a s
happen (leaves asking_consent) s = record_abandon asking_consent s
happen attempts s = start_attempt s
happen pill_gone s = pill_over s

unfoldable pub happen_all : List Happening → Screen → Screen
happen_all [] s = s
happen_all (h ∷ hs) s = happen_all hs (happen h s)

abbrev pub attempts_in : List Happening → ℕ
attempts_in [] = 0
attempts_in (attempts ∷ hs) = suc (attempts_in hs)
attempts_in (captures w net uri mime_type a ∷ hs) = attempts_in hs
attempts_in (leaves b ∷ hs) = attempts_in hs
attempts_in (pill_gone ∷ hs) = attempts_in hs

-- An attempt that is not settled may still be abandoned.
abbrev open_attempt : Screen → ℕ
open_attempt s = if s.attempt_settled then 0 else 1

answered-abandoned :
    (w : Surroundings) (uri mime_type : String) (a : Answer) (s : Screen)
    → (answered w uri mime_type a s).abandoned ≡ s.abandoned
unfolding answered queue_photo fail
answered-abandoned w uri mime_type (scanned i) s = refl
answered-abandoned w uri mime_type (refused e) s = ground arith

submit-abandoned :
    (w : Surroundings) (net : Network) (uri mime_type : String) (s : Screen)
    → (submit w net uri mime_type s).abandoned ≡ s.abandoned
unfolding submit network_answered begin_submit queue_photo fail
submit-abandoned w unreadable uri mime_type s = refl
submit-abandoned w (connected c) uri mime_type s = ground arith

capture-abandoned :
    (w : Surroundings) (net : Network) (uri mime_type : String) (a : Answer) (s : Screen)
    → (capture w net uri mime_type a s).abandoned ≡ s.abandoned
unfolding capture
capture-abandoned w net uri mime_type a s = ground (
  arith,
  submit-abandoned w net uri mime_type (record s { flow_state = capturing }),
  answered-abandoned w uri mime_type a
      (submit w net uri mime_type (record s { flow_state = capturing })),
)

happen_all-abandoned :
    (hs : List Happening) (s : Screen)
    → (happen_all hs s).abandoned + open_attempt (happen_all hs s)
      ≤ s.abandoned + open_attempt s + attempts_in hs
unfolding happen_all happen record_abandon start_attempt pill_over
happen_all-abandoned [] s = omega arith
happen_all-abandoned (captures w net uri mime_type a ∷ hs) s = ground (
  arith,
  happen_all-abandoned hs (capture w net uri mime_type a s),
  capture-abandoned w net uri mime_type a s,
  capture_settles w net uri mime_type a s,
)
happen_all-abandoned (leaves b ∷ hs) s =
    ground (arith, happen_all-abandoned hs (record_abandon b s))
happen_all-abandoned (attempts ∷ hs) s = ground (arith, happen_all-abandoned hs (start_attempt s))
happen_all-abandoned (pill_gone ∷ hs) s = ground (arith, happen_all-abandoned hs (pill_over s))

-- Over any run of captures, departures and new attempts from a screen whose attempt is open, the
-- abandonment event is sent at most once for each attempt.
pub abandoned-le-attempts :
    (hs : List Happening) (s : Screen)
    → s.attempt_settled ≡ false
    → s.abandoned ≡ 0
    → (happen_all hs s).abandoned ≤ attempts_in hs + 1
abandoned-le-attempts hs s o z = ground (arith, happen_all-abandoned hs s)

-- ===== src/Errors/Earliest.antt =====
-- Of several problems that the server lists, the hint is for the first.
use grocery_genie.Base.{
  nat_eq, string_eq, ℕ, ◌≤◌, ◌<◌, String, ◌≡◌, refl, sym, ap, subst, ◌∙◌, ◌⊎◌, inl, inr, Bool, true,
  false, Option, none, some, List, [], ◌∷◌, arith, ltb, if◌then◌else◌, ltb→lt, All,
}
use grocery_genie.Errors.Search.{search_text}
use grocery_genie.Errors.{hints, better, best_hint}

-- No pattern of the list occurs in the text before this position.
abbrev pub NotBefore : ℕ → Option ℕ → Type 0
NotBefore at none = Unit
NotBefore at (some p) = at ≤ p

abbrev pub NoneBefore : ℕ → String → List (String × String) → Type 0
NoneBefore at detail hs = All (λ h. NotBefore at (search_text h.0 detail)) hs

abbrev pub NoneOccurs : String → List (String × String) → Type 0
NoneOccurs detail hs = All (λ h. search_text h.0 detail ≡ none) hs

-- One of the list's patterns occurs at this position and has this hint.
abbrev pub Occurs : ℕ → String → String → List (String × String) → Type 0
Occurs at hint detail [] = ⊥
Occurs at hint detail (h ∷ hs) =
    ((search_text h.0 detail ≡ some at) × (h.1 ≡ hint)) ⊎ Occurs at hint detail hs

abbrev pub Earliest : Option (ℕ × String) → String → List (String × String) → Type 0
Earliest none detail hs = NoneOccurs detail hs
Earliest (some (at, hint)) detail hs = Occurs at hint detail hs × NoneBefore at detail hs

-- What the loop makes of the match that it has so far.
abbrev Improves :
    Option (ℕ × String) → Option (ℕ × String) → String → List (String × String) → Type 0
Improves none r detail hs = Earliest r detail hs
Improves (some (b, h)) none detail hs = ⊥
Improves (some (b, h)) (some (at, hint)) detail hs =
    (((at ≡ b) × (hint ≡ h)) ⊎ ((at < b) × Occurs at hint detail hs))
    × (at ≤ b)
    × NoneBefore at detail hs

module _ (p h detail : String) (hs : List (String × String)) where
  -- A round whose pattern does not occur.
  absent-Improves :
      (best r : Option (ℕ × String))
      → search_text p detail ≡ none
      → Improves best r detail hs
      → Improves best r detail ((p, h) ∷ hs)
  absent-Improves none none e v = (e, v)
  absent-Improves none (some (at, hint)) e v = (inr v.0, (subst (NotBefore at) (sym e) tt, v.1))
  absent-Improves (some (b, g)) none e v = v
  absent-Improves (some (b, g)) (some (at, hint)) e (kept, le, clear) = (
    elim kept [ inl same ↦ inl same | inr (lt, occurs) ↦ inr (lt, inr occurs) ],
    le,
    (subst (NotBefore at) (sym e) tt, clear),
  )

  -- A round whose match is the best so far.
  found-Earliest :
      (a : ℕ) (r : Option (ℕ × String))
      → search_text p detail ≡ some a
      → Improves (some (a, h)) r detail hs
      → Earliest r detail ((p, h) ∷ hs)
  found-Earliest a none e v = absurd v
  found-Earliest a (some (at, hint)) e (kept, le, clear) = (
    elim kept [
      | inl (same, its) ↦ inl (e ∙ ap some (sym same), sym its)
      | inr (lt, occurs) ↦ inr occurs
    ],
    (subst (NotBefore at) (sym e) le, clear),
  )

  present-Improves :
      (a b : ℕ) (g : String) (earlier : Bool) (r : Option (ℕ × String))
      → search_text p detail ≡ some a
      → ltb a b ≡ earlier
      → Improves (if earlier then some (a, h) else some (b, g)) r detail hs
      → Improves (some (b, g)) r detail ((p, h) ∷ hs)
  present-Improves a b g true none e t v = v
  present-Improves a b g false none e t v = v
  present-Improves a b g true (some (at, hint)) e t v =
      let first = found-Earliest a (some (at, hint)) e v in
      let lt : a < b = ltb→lt a b t in
      (inr (omega (arith, v.1), first.0), omega (arith, v.1), first.1)
  present-Improves a b g false (some (at, hint)) e t (kept, le, clear) = (
    elim kept [ inl same ↦ inl same | inr (lt, occurs) ↦ inr (lt, inr occurs) ],
    le,
    (subst (NotBefore at) (sym e) (ground arith), clear),
  )

  better-Improves :
      (best r : Option (ℕ × String)) (o : Option ℕ)
      → search_text p detail ≡ o
      → Improves (better best o h) r detail hs
      → Improves best r detail ((p, h) ∷ hs)
  better-Improves none r none e v = absent-Improves none r e v
  better-Improves (some (b, g)) r none e v = absent-Improves (some (b, g)) r e v
  better-Improves none r (some a) e v = found-Earliest a r e v
  better-Improves (some (b, g)) r (some a) e v = present-Improves a b g (ltb a b) r e refl v

best_hint-Improves :
    (hs : List (String × String)) (best : Option (ℕ × String)) (detail : String)
    → Improves best (best_hint best hs detail) detail hs
unfolding best_hint
best_hint-Improves [] none detail = tt
best_hint-Improves [] (some (b, h)) detail = (inl (refl, refl), omega arith, tt)
best_hint-Improves ((p, h) ∷ hs) best detail =
    better-Improves p h detail hs best _ (search_text p detail) refl
      (best_hint-Improves hs (better best (search_text p detail) h) detail)

-- The hint for a rejected photo is that of a problem that the server's text names, none of the
-- known problems is named before it, and there is no hint exactly if none of them is named.
best_hint-Earliest : (detail : String) → Earliest (best_hint none hints detail) detail hints
best_hint-Earliest detail = best_hint-Improves hints none detail

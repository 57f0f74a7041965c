-- ===== src/Matches/Prompt/Passed.antt =====
-- How often a suggestion stands among those that the prompt has passed.
use grocery_genie.Base.{
  nat_eq, string_eq, ℕ, zero, suc, ◌+◌, ◌≤◌, String, ◌≡◌, ap, ◌∙◌, Option, none, some, List, [],
  ◌∷◌, ◌++◌, arith, str_eq, length, select, take, length-append, select-append,
}
use grocery_genie.Matches.Suggestions.{ItemSuggestion, has_id}
use grocery_genie.Matches.Prompt.{entry_at, shown_at}

abbrev pub times : String → List String → ℕ
times u is = length (select (λ i. str_eq i u) is)

abbrev pub asked : String → List ItemSuggestion → ℕ
asked u q = length (select (has_id u) q)

asked-take-suc :
    (u : String) (i : ℕ) (q : List ItemSuggestion) (g : ItemSuggestion)
    → entry_at i q ≡ some g
    → asked u (take (suc i) q) ≡ asked u (take i q) + times u (g.id ∷ [])
asked-take-suc u i [] g h = ground (arith, h)
asked-take-suc u zero (s ∷ ss) g h = ground (arith, h)
asked-take-suc u (suc i) (s ∷ ss) g h = ground (arith, asked-take-suc u i ss g h)

pub times-snoc :
    (u i : String) (is : List String) → times u (is ++ i ∷ []) ≡ times u is + times u (i ∷ [])
times-snoc u i is =
    ap length (select-append (λ j. str_eq j u) is (i ∷ []))
    ∙ length-append (select (λ j. str_eq j u) is) (select (λ j. str_eq j u) (i ∷ []))

asked-take_mono :
    (u : String) (i j : ℕ) (q : List ItemSuggestion)
    → i ≤ j
    → asked u (take i q) ≤ asked u (take j q)
asked-take_mono u zero j q h = omega arith
asked-take_mono u (suc i) zero q h = absurd (omega (arith, h))
asked-take_mono u (suc i) (suc j) [] h = omega arith
asked-take_mono u (suc i) (suc j) (s ∷ ss) h =
    ground (arith, asked-take_mono u i j ss (omega (arith, h)))

-- How often the suggestion `u` stands among those before the index.
abbrev pub passed_times : String → Option (List ItemSuggestion) → ℕ → ℕ
passed_times u none i = 0
passed_times u (some q) i = asked u (take i q)

pub passed_times_mono :
    (u : String) (o : Option (List ItemSuggestion)) (i j : ℕ)
    → i ≤ j
    → passed_times u o i ≤ passed_times u o j
passed_times_mono u none i j h = omega arith
passed_times_mono u (some q) i j h = asked-take_mono u i j q h

pub passed_times-suc :
    (u : String) (o : Option (List ItemSuggestion)) (i : ℕ) (g : ItemSuggestion)
    → shown_at o i ≡ some g
    → passed_times u o (suc i) ≡ passed_times u o i + times u (g.id ∷ [])
passed_times-suc u none i g h = ground (arith, h)
passed_times-suc u (some q) i g h = asked-take-suc u i q g h

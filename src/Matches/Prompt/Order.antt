-- ===== src/Matches/Prompt/Order.antt =====
-- Which suggestions the prompt asks about, and which one first.
use grocery_genie.Base.{nat_eq, string_eq, ℕ, String, ◌≡◌, ◌⊎◌, Bool, some, List, length, select}
use grocery_genie.Matches.Suggestions.{ItemSuggestion}
use grocery_genie.Matches.Prompt.{entry_at}
use grocery_genie.Matches.Prompt.Passed.{asked}

abbrev counted : (ItemSuggestion → Bool) → List ItemSuggestion → ℕ
counted p q = length (select p q)

-- The queue is empty of `i`, or starts with it.
abbrev pub StartsWith : String → List ItemSuggestion → Type 0
StartsWith i q = (asked i q ≡ 0) ⊎ ((g : ItemSuggestion) × (entry_at 0 q ≡ some g) × (g.id ≡ i))

-- ===== src/Errors/Search.antt =====
-- Case-insensitive search of a text for a plain word, as the regular expressions `/word/i` of
-- mobile/src/features/receipt-capture/utils do it: ASCII letters are compared without case.
use Prim.Native.Char.{code}
use grocery_genie.Base.{
  ℕ, suc, ◌+◌, ◌≡◌, refl, String, Bool, true, false, ◌&&◌, List, [], ◌∷◌, Option, none, some, leb,
  ◌==◌, if◌then◌else◌, is_some,
}

abbrev pub codes : String → List ℕ
codes String.[] = []
codes (String.◌∷◌ c s) = code c ∷ codes s

unfoldable pub fold_case : ℕ → ℕ
fold_case c = if leb b'A' c && leb c b'Z' then c + 32 else c

-- The word stands at the start of the text.
unfoldable pub starts : List ℕ → List ℕ → Bool
unfolding fold_case
starts [] text = true
starts (p ∷ word) [] = false
starts (p ∷ word) (c ∷ text) = fold_case p == fold_case c && starts word text

-- text.search(word), from the position `at` on
unfoldable pub search_from : ℕ → List ℕ → List ℕ → Option ℕ
unfolding starts
search_from at word [] = if starts word [] then some at else none
search_from at word (c ∷ text) =
    let later = search_from (suc at) word text in if starts word (c ∷ text) then some at else later

unfoldable pub search_text : String → String → Option ℕ
unfolding search_from
search_text word text = search_from 0 (codes word) (codes text)

unfoldable pub contains : String → String → Bool
unfolding search_text
contains word text = is_some (search_text word text)

contains_quota : contains "quota" "Monthly QUOTA reached" ≡ true
unfolding contains
contains_quota = refl

-- ===== src/Matches/Suggestions.antt =====
-- The suggestions that the prompt asks about, and in which order: queueOf of
-- mobile/app/items/match.tsx.
use grocery_genie.Base.{
  nat_eq, string_eq, is_empty, ℕ, suc, String, Bool, true, false, ◌&&◌, ◌||◌, Option, none, some,
  List, [], ◌∷◌, ◌++◌, str_eq, ltb, leb, if◌then◌else◌, select, take, drop,
}
use grocery_genie.Base.Sorting.{sort_by}

pub record ItemSuggestion : Type 0 where
  pub id : String
  pub item_id : String

-- `ids` is the text of the route, split at its commas, `none` where it is missing or empty.
pub record Params : Type 0 where
  pub item_id : Option String
  pub ids : Option (List String)
  pub start : Option String

abbrev pub has_id : String → ItemSuggestion → Bool
has_id i s = str_eq s.id i

-- !params.itemId || s.item.id === params.itemId
abbrev pub of_item : Option String → ItemSuggestion → Bool
of_item none s = true
of_item (some i) s = is_empty i || str_eq s.item_id i

abbrev pub includes : List String → String → Bool
includes [] i = false
includes (w ∷ ws) i = str_eq w i || includes ws i

abbrev pub is_wanted : Option (List String) → ItemSuggestion → Bool
is_wanted none s = true
is_wanted (some ws) s = includes ws s.id

abbrev pub asks_about : Params → ItemSuggestion → Bool
asks_about params s = of_item params.item_id s && is_wanted params.ids s

-- indexOf, of a text that is included
abbrev pub place : String → List String → ℕ
place i [] = 0
place i (w ∷ ws) = if str_eq w i then 0 else suc (place i ws)

abbrev pub not_after : Option (List String) → ItemSuggestion → ItemSuggestion → Bool
not_after none a b = true
not_after (some ws) a b = leb (place a.id ws) (place b.id ws)

abbrev pub one_later : Option ℕ → Option ℕ
one_later none = none
one_later (some k) = some (suc k)

abbrev pub find_index : String → List ItemSuggestion → Option ℕ
find_index i [] = none
find_index i (s ∷ ss) = if has_id i s then some 0 else one_later (find_index i ss)

abbrev pub first_of : Option String → List ItemSuggestion → Option ℕ
first_of none list = none
first_of (some i) list = if is_empty i then none else find_index i list

abbrev pub rotated : Option ℕ → List ItemSuggestion → List ItemSuggestion
rotated none list = list
rotated (some k) list = if ltb 0 k then drop k list ++ take k list else list

unfoldable pub queue_of : List ItemSuggestion → Params → List ItemSuggestion
unfolding sort_by
queue_of all params =
    let list = sort_by (not_after params.ids) (select (asks_about params) all) in
    rotated (first_of params.start list) list

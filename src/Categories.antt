-- ===== src/Categories.antt =====
-- How a category looks: mobile/src/constants/categories.ts. Colours are named, as in the theme;
-- names are compared after folding ASCII capitals, which is what toLowerCase does to the names
-- known here.
pub mod Looks
mod Tests
use grocery_genie.Base.{
  Eq, nat_eq, string_eq, option_beq, option_beq_iff, changed, trim, is_empty, ℕ, zero, suc, ◌+◌,
  ◌-◌, ◌*◌, ◌/◌, ◌%◌, ◌≤◌, ◌<◌, String, ◌≡◌, refl, sym, ap, subst, ◌∙◌, ◌≢◌, ◌↔◌, ◌⊎◌, inl, inr,
  Bool, true, false, not, ◌&&◌, ◌||◌, Option, none, some, List, [], ◌∷◌, ◌++◌, map, append-nil,
  append_assoc, map-append, arith, str_eq, eq_iff, eq_refl, ltb, leb, ◌==◌, if◌then◌else◌, ltb→lt,
  leb→le, ==_iff, Bool-cases, if_cases, Option-cases, or_else, is_some, length, select, find, any,
  take, drop, All, length-append, All-append, All-map, All-select, All-select_of, length-take-le,
  select-append, Pairwise, Pairwise-map, find-cases,
}
use grocery_genie.Errors.Search.{codes, fold_case, starts, search_from, search_text, contains}

pub record CategoryMeta : Type 0 where
  pub id : String
  pub name : String
  pub sort_order : ℕ
  pub color : String
  pub symbol : String

abbrev pub meta : String → String → ℕ → String → String → CategoryMeta
meta id name sort_order color symbol = record {
  id = id;
  name = name;
  sort_order = sort_order;
  color = color;
  symbol = symbol;
}

-- FALLBACK_CATEGORY
abbrev pub fallback_category : CategoryMeta
fallback_category = meta "other" "Other" 8 "gray" "tag.fill"

abbrev pub default_categories : List CategoryMeta
default_categories =
    meta "groceries" "Groceries" 1 "groceries" "cart.fill"
    ∷ meta "household" "Household" 2 "household" "house.fill"
    ∷ meta "personal-care" "Personal Care" 3 "personalCare" "heart.fill"
    ∷ meta "beverages" "Beverages" 4 "beverages" "cup.and.saucer.fill"
    ∷ meta "snacks-treats" "Snacks & Treats" 5 "snacks" "birthday.cake.fill"
    ∷ meta "baby-kids" "Baby & Kids" 6 "babyKids" "figure.and.child.holdinghands"
    ∷ meta "pet" "Pet" 7 "pet" "pawprint.fill"
    ∷ fallback_category
    ∷ []

-- A category of the server.
pub record BackendCategory : Type 0 where
  pub id : String
  pub name : String
  pub color : Option String
  pub icon : Option String

-- CATEGORY_ICON_SYMBOLS
abbrev pub icon_symbols : List (String × String)
icon_symbols =
    ("cart", "cart.fill")
    ∷ ("house", "house.fill")
    ∷ ("heart", "heart.fill")
    ∷ ("cup", "cup.and.saucer.fill")
    ∷ ("cake", "birthday.cake.fill")
    ∷ ("family", "figure.and.child.holdinghands")
    ∷ ("paw", "pawprint.fill")
    ∷ ("tag", "tag.fill")
    ∷ ("leaf", "leaf.fill")
    ∷ ("gift", "gift.fill")
    ∷ ("sparkles", "sparkles")
    ∷ ("fork-knife", "fork.knife")
    ∷ ("wineglass", "wineglass.fill")
    ∷ ("dumbbell", "dumbbell.fill")
    ∷ ("pills", "pills.fill")
    ∷ ("book", "book.fill")
    ∷ ("gamecontroller", "gamecontroller.fill")
    ∷ ("wrench", "wrench.and.screwdriver.fill")
    ∷ ("airplane", "airplane")
    ∷ []

-- table[key], if the table has the key
abbrev pub entry_of : List (String × String) → String → Option String
entry_of [] k = none
entry_of (e ∷ es) k = if str_eq e.0 k then some e.1 else entry_of es k

abbrev pub looked_up : List (String × String) → Option String → Option String
looked_up table none = none
looked_up table (some k) = entry_of table k

abbrev pub same_codes : List ℕ → List ℕ → Bool
unfolding fold_case
same_codes [] [] = true
same_codes [] (d ∷ ds) = false
same_codes (c ∷ cs) [] = false
same_codes (c ∷ cs) (d ∷ ds) = fold_case c == fold_case d && same_codes cs ds

unfoldable pub same_name : String → String → Bool
unfolding same_codes
same_name s t = same_codes (codes s) (codes t)

abbrev pub has_meta_id : String → CategoryMeta → Bool
has_meta_id i c = str_eq c.id i

abbrev pub has_meta_name : String → CategoryMeta → Bool
unfolding same_name
has_meta_name n c = same_name c.name n

-- CATEGORY_BY_ID.get(id) ?? FALLBACK_CATEGORY
unfoldable pub get_category_meta : Option String → CategoryMeta
get_category_meta none = fallback_category
get_category_meta (some id) =
    if is_empty id
    then fallback_category
    else or_else (find (has_meta_id id) default_categories) fallback_category

unfoldable pub get_category_meta_by_name : Option String → CategoryMeta
unfolding has_meta_name
get_category_meta_by_name none = fallback_category
get_category_meta_by_name (some name) =
    if is_empty name
    then fallback_category
    else or_else (find (has_meta_name name) default_categories) fallback_category

-- categoryPalette, by the names of the system colours
abbrev pub category_palette : List (String × String)
category_palette =
    ("indigo", "systemIndigo")
    ∷ ("purple", "systemPurple")
    ∷ ("pink", "systemPink")
    ∷ ("red", "systemRed")
    ∷ ("orange", "systemOrange")
    ∷ ("yellow", "systemYellow")
    ∷ ("green", "systemGreen")
    ∷ ("mint", "systemMint")
    ∷ ("teal", "systemTeal")
    ∷ ("cyan", "systemCyan")
    ∷ ("blue", "systemBlue")
    ∷ ("brown", "systemBrown")
    ∷ ("gray", "systemGray")
    ∷ []

unfoldable pub category_meta : BackendCategory → CategoryMeta
unfolding get_category_meta_by_name
category_meta cat =
    let by_name = get_category_meta_by_name (some cat.name) in
    let color = looked_up category_palette cat.color in
    let symbol = looked_up icon_symbols cat.icon in
    if not (is_some color) && not (is_some symbol) && str_eq by_name.name cat.name
    then by_name
    else record by_name {
      name = cat.name;
      color = or_else color by_name.color;
      symbol = or_else symbol by_name.symbol;
    }

abbrev pub has_backend_id : String → BackendCategory → Bool
has_backend_id i c = str_eq c.id i

abbrev pub meta_or_fallback : Option BackendCategory → CategoryMeta
unfolding category_meta
meta_or_fallback none = fallback_category
meta_or_fallback (some c) = category_meta c

abbrev pub by_slug_or : Option CategoryMeta → CategoryMeta → CategoryMeta
by_slug_or none otherwise = otherwise
by_slug_or (some c) otherwise = c

unfoldable pub resolve_category_meta : Option String → Option (List BackendCategory) → CategoryMeta
unfolding meta_or_fallback
resolve_category_meta none categories = fallback_category
resolve_category_meta (some id) categories =
    if is_empty id
    then fallback_category
    else by_slug_or (find (has_meta_id id) default_categories)
        (meta_or_fallback (find (has_backend_id id) (or_else categories [])))

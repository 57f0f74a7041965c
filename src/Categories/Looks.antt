-- ===== src/Categories/Looks.antt =====
-- A category keeps its own name, and the built-in ones are found however they are named.
use grocery_genie.Base.{
  nat_eq, string_eq, is_empty, String, ◌≡◌, refl, sym, subst, inl, inr, Bool, false, ◌&&◌, some,
  List, arith, str_eq, eq_iff, if◌then◌else◌, if_cases, find, All, find-cases,
}
use grocery_genie.Categories.{
  CategoryMeta, fallback_category, default_categories, BackendCategory, has_meta_id,
  get_category_meta, get_category_meta_by_name, category_meta, has_backend_id, meta_or_fallback,
  by_slug_or, resolve_category_meta,
}

-- Each built-in category is found by its id and by its name.
found_again :
    All
      (λ c. (get_category_meta (some c.id) ≡ c) × (get_category_meta_by_name (some c.name) ≡ c))
      default_categories
unfolding get_category_meta get_category_meta_by_name
found_again = (
  (refl, refl),
  (
    (refl, refl),
    (
      (refl, refl),
      ((refl, refl), ((refl, refl), ((refl, refl), ((refl, refl), ((refl, refl), tt))))),
    ),
  ),
)

kept_name :
    (b : CategoryMeta) (name color symbol : String) (unnamed : Bool)
    → (if unnamed && str_eq b.name name
        then b
        else record b { name = name; color = color; symbol = symbol }).name
      ≡ name
kept_name b name color symbol unnamed = ground (arith, eq_iff b.name name)

category_meta-name : (c : BackendCategory) → (category_meta c).name ≡ c.name
unfolding category_meta
category_meta-name c = kept_name (get_category_meta_by_name (some c.name)) c.name _ _ _

-- What an id may resolve to: the built-in category with this id, the look of a category of the
-- server with this id, under its own name, or the built-in "Other" if neither list has the id.
pub data Resolved (id : String) (categories : List BackendCategory) : CategoryMeta → Type 0 where
  built_in : (c : CategoryMeta) → c.id ≡ id → Resolved id categories c
  from_server :
      (b : BackendCategory) (c : CategoryMeta)
      → b.id ≡ id
      → c.name ≡ b.name
      → All (λ d. str_eq d.id id ≡ false) default_categories
      → Resolved id categories c
  unknown :
      All (λ d. str_eq d.id id ≡ false) default_categories
      → All (λ b. str_eq b.id id ≡ false) categories
      → Resolved id categories fallback_category

-- An id that is not empty resolves to the built-in category that has it, before any of the
-- server's, and to "Other" only if no category has it; a category of the server is shown under its
-- own name.
pub resolve_category_meta-Resolved :
    (id : String) (categories : List BackendCategory)
    → is_empty id ≡ false
    → Resolved id categories (resolve_category_meta (some id) (some categories))
unfolding resolve_category_meta
resolve_category_meta-Resolved id categories named =
    if_cases (is_empty id) (Resolved id categories) (λ no. absurd (ground (arith, named, no)))
      (λ yes'. elim (find-cases (has_meta_id id) default_categories) [
        | inr (c, found, same) ↦
            subst
              (λ o.
                Resolved id categories
                  (by_slug_or o (meta_or_fallback (find (has_backend_id id) categories))))
              (sym found) (built_in c ((eq_iff c.id id).0 same))
        | inl (no_slug, no_default) ↦
            subst
              (λ o.
                Resolved id categories
                  (by_slug_or o (meta_or_fallback (find (has_backend_id id) categories))))
              (sym no_slug)
              (elim (find-cases (has_backend_id id) categories) [
                | inr (b, found, same) ↦
                    subst (λ o. Resolved id categories (meta_or_fallback o)) (sym found)
                      (from_server b (category_meta b) ((eq_iff b.id id).0 same)
                        (category_meta-name b) no_default)
                | inl (nothing, none_there) ↦
                    subst (λ o. Resolved id categories (meta_or_fallback o)) (sym nothing)
                      (unknown no_default none_there)
              ])
      ])

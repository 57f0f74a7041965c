-- ===== src/Categories/Tests.antt =====
-- Categories of the server and of the app on small examples.
use grocery_genie.Base.{nat_eq, string_eq, ◌≡◌, refl, some, [], ◌∷◌}
use grocery_genie.Categories.{
  fallback_category, BackendCategory, same_name, get_category_meta_by_name, category_meta,
  resolve_category_meta,
}

abbrev pets : BackendCategory
pets = record { id = "c7"; name = "pet"; color = some "teal"; icon = some "unknown" }

own_colour : resolve_category_meta (some "c7") (some (pets ∷ [])) ≡ record {
  id = "pet";
  name = "pet";
  sort_order = 7;
  color = "systemTeal";
  symbol = "pawprint.fill";
}
unfolding resolve_category_meta category_meta get_category_meta_by_name same_name
own_colour = refl

slug_first :
    resolve_category_meta (some "other") (some (record pets { id = "other" } ∷ []))
    ≡ fallback_category
unfolding resolve_category_meta
slug_first = refl

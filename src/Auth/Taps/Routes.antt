-- ===== src/Auth/Taps/Routes.antt =====
-- A tap opens an in-app screen only.
use Prim.Native.String
use grocery_genie.Base.{
  String, ◌≡◌, refl, ◌≢◌, ◌⊎◌, inl, inr, true, false, Option, none, some, arith, eq_iff, Bool-cases,
}
use grocery_genie.Auth.Taps.{
  PushData, is_item_id, is_in_app_path, is_price_change, item_route, url_route,
  parse_notification_tap,
}

-- The route of an item: "/items/" and an id of letters, digits and dashes.
abbrev pub IsItemRoute : String → Type 0
IsItemRoute r = (i : String) × (is_item_id i ≡ true) × (r ≡ String.◌++◌ "/items/" i)

abbrev pub IsInAppRoute : String → Type 0
IsInAppRoute r = (r ≡ "/") ⊎ IsItemRoute r ⊎ (is_in_app_path r ≡ true)

item_route-cases : (o : Option String) → (item_route o ≡ "/") ⊎ IsItemRoute (item_route o)
item_route-cases none = inl refl
item_route-cases (some i) = elim (Bool-cases (is_item_id i)) [
  | inl good ↦ rw good (inr (i, good, refl))
  | inr bad ↦ rw bad (inl refl)
]

item_route-IsInAppRoute : (o : Option String) → IsInAppRoute (item_route o)
item_route-IsInAppRoute o = elim (item_route-cases o) [ inl e ↦ inl e | inr i ↦ inr (inl i) ]

not_price_change : (o : Option String) → is_price_change o ≡ false → o ≢ some "price_change"
not_price_change none h e = cc
not_price_change (some t) h e = ground (arith, eq_iff t "price_change")

url_route-IsInAppRoute : (o : Option String) → IsInAppRoute (url_route o)
url_route-IsInAppRoute none = inl refl
url_route-IsInAppRoute (some u) = elim (Bool-cases (is_in_app_path u)) [
  | inl good ↦ rw good (inr (inr good))
  | inr bad ↦ rw bad (inl refl)
]

-- Whatever a push carries, its tap leads to the dashboard, to an item whose id is letters, digits
-- and dashes, or to a path that begins with one slash and not with two; a price alert never leads
-- to a path of its own.
parse_notification_tap-IsInAppRoute :
    (d : PushData)
    → IsInAppRoute (parse_notification_tap d).1
      × ((d.type ≢ some "price_change")
          ⊎ ((parse_notification_tap d).1 ≡ "/")
          ⊎ IsItemRoute (parse_notification_tap d).1)
unfolding parse_notification_tap
parse_notification_tap-IsInAppRoute d = elim (Bool-cases (is_price_change d.type)) [
  | inl price ↦
      rw price
        (item_route-IsInAppRoute d.canonical_item_id, inr (item_route-cases d.canonical_item_id))
  | inr plain ↦ rw plain (url_route-IsInAppRoute d.url, inl (not_price_change d.type plain))
]

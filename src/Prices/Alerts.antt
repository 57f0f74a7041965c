-- ===== src/Prices/Alerts.antt =====
-- The list of price alerts: mobile/src/features/price-intelligence/utils/priceAlertRows.ts. The
-- JSON of an alert is read by the language: its fields are optional, and `title_match` is what the
-- pattern for "up 20%" finds in the title. Times are milliseconds. The id pattern is an argument.
pub mod Groups
use grocery_genie.Base.{
  Eq, nat_eq, string_eq, option_beq, option_beq_iff, changed, trim, is_empty, ℕ, zero, suc, ◌+◌,
  ◌-◌, ◌*◌, ◌/◌, ◌%◌, ◌≤◌, ◌<◌, String, ◌≡◌, refl, sym, ap, subst, ◌∙◌, ◌≢◌, ◌↔◌, ◌⊎◌, inl, inr,
  Bool, true, false, not, ◌&&◌, ◌||◌, Option, none, some, List, [], ◌∷◌, ◌++◌, map, append-nil,
  append_assoc, map-append, arith, str_eq, eq_iff, eq_refl, ltb, leb, ◌==◌, if◌then◌else◌, ltb→lt,
  leb→le, ==_iff, Bool-cases, if_cases, Option-cases, or_else, is_some, length, select, find, any,
  take, drop, All, length-append, All-append, All-map, All-select, All-select_of, length-take-le,
  select-append, Pairwise, Pairwise-map,
}
use grocery_genie.Base.Int.{ℤ, pos, negsuc, pos_part, neg_part}
use grocery_genie.Base.Sorting.{sort_by}

pub data Direction : Type 0 where
  upward downward : Direction

-- The parsed data; a recent price is `none` where it is no finite number.
pub record AlertData : Type 0 where
  pub canonical_item_id : Option String
  pub direction : Option String
  pub percent : Option ℤ
  pub item_name : Option String
  pub old_average : Option String
  pub new_price : Option String
  pub store_name : Option String
  pub recent_prices : List (Option ℕ)

pub record PriceAlertNotification : Type 0 where
  pub id : String
  pub title : String
  pub body : String
  pub created_at : ℕ
  pub data_fields : AlertData
  pub title_match : Option (Direction × ℕ)

-- What the row says under the name: "<Store> · was $X avg, now $Y", or the body.
pub data RowDetail : Type 0 where
  was_now : Option String → String → String → RowDetail
  plain_body : String → RowDetail

pub record PriceAlertRow : Type 0 where
  pub id : String
  pub item_id : Option String
  pub item_name : String
  pub direction : Direction
  pub percent : ℕ
  pub detail : RowDetail
  pub stock_up : Bool
  pub sparkline : List ℕ
  pub created_at : ℕ

-- str(v)
abbrev pub str : Option String → Option String
str none = none
str (some s) = if is_empty s then none else some s

abbrev pub if_id : (String → Bool) → Option String → Option String
if_id is_item_id none = none
if_id is_item_id (some i) = if is_item_id i then some i else none

abbrev pub title_direction : Option (Direction × ℕ) → Direction
title_direction none = upward
title_direction (some m) = m.0

abbrev pub title_percent : Option (Direction × ℕ) → ℕ
title_percent none = 0
title_percent (some m) = m.1

abbrev pub direction_of : Option String → Direction → Direction
direction_of none otherwise = otherwise
direction_of (some d) otherwise =
    if str_eq d "up" then upward else if str_eq d "down" then downward else otherwise

abbrev pub percent_of : Option ℤ → ℕ → ℕ
percent_of none otherwise = otherwise
percent_of (some p) otherwise = pos_part p + neg_part p

abbrev pub detail_of :
    Option String → Option String → Option String → Option String → String → RowDetail
detail_of (some name) (some old) (some new) store body = was_now store old new
detail_of (some name) (some old) none store body = plain_body body
detail_of (some name) none new store body = plain_body body
detail_of none old new store body = plain_body body

abbrev pub is_down : Direction → Bool
is_down upward = false
is_down downward = true

abbrev pub finite : List (Option ℕ) → List ℕ
finite [] = []
finite (none ∷ ps) = finite ps
finite (some p ∷ ps) = p ∷ finite ps

unfoldable pub to_price_alert_row : (String → Bool) → PriceAlertNotification → PriceAlertRow
to_price_alert_row is_item_id n =
    let d = n.data_fields in
    let direction = direction_of d.direction (title_direction n.title_match) in
    let name = str d.item_name in
    let old = str d.old_average in
    let new = str d.new_price in
    record {
      id = n.id;
      item_id = if_id is_item_id (str d.canonical_item_id);
      item_name = or_else name n.title;
      direction = direction;
      percent = percent_of d.percent (title_percent n.title_match);
      detail = detail_of name old new (str d.store_name) n.body;
      stock_up = is_some name && is_some old && is_some new && is_down direction;
      sparkline = finite d.recent_prices;
      created_at = n.created_at;
    }

pub data GroupTitle : Type 0 where
  this_week earlier : GroupTitle

pub record PriceAlertGroup : Type 0 where
  pub title : GroupTitle
  pub rows : List PriceAlertRow

-- WEEK_MS
abbrev pub week_ms : ℕ
week_ms = 7 * 24 * 60 * 60 * 1000

abbrev pub newer : PriceAlertRow → PriceAlertRow → Bool
newer a b = leb b.created_at a.created_at

abbrev pub is_this_week : ℕ → PriceAlertRow → Bool
is_this_week now r = leb now (r.created_at + week_ms)

abbrev pub is_earlier : ℕ → PriceAlertRow → Bool
is_earlier now r = ltb (r.created_at + week_ms) now

abbrev pub has_rows : PriceAlertGroup → Bool
has_rows g = ltb 0 (length g.rows)

unfoldable pub group_price_alerts : List PriceAlertRow → ℕ → List PriceAlertGroup
group_price_alerts rows now =
    let sorted = sort_by newer rows in
    select has_rows (
      record { title = this_week; rows = select (is_this_week now) sorted }
      ∷ record { title = earlier; rows = select (is_earlier now) sorted }
      ∷ [])

-- ===== src/Prices/Tests.antt =====
-- Stores and price alerts on small examples.
use grocery_genie.Base.{
  nat_eq, string_eq, ℕ, String, ◌≡◌, Bool, false, some, List, [], ◌∷◌, is_some, length, select, All,
}
use grocery_genie.Prices.Alerts.{upward, plain_body, PriceAlertRow, group_price_alerts}
use grocery_genie.Prices.Alerts.Groups.{in_groups, IsGroup, group_price_alerts-IsGroup}

abbrev alert : String → ℕ → PriceAlertRow
alert i at = record {
  id = i;
  item_id = some i;
  item_name = "Milk";
  direction = upward;
  percent = 22;
  detail = plain_body "Milk is up 22%";
  stock_up = false;
  sparkline = 199 ∷ 243 ∷ [];
  created_at = at;
}

abbrev of_milk : PriceAlertRow → Bool
of_milk r = is_some r.item_id

abbrev alerts : List PriceAlertRow
alerts = alert "a" 604800001 ∷ alert "b" 1 ∷ alert "c" 1204800000 ∷ []

group_price_alerts-IsGroup_example :
    let groups = group_price_alerts alerts 1209600000 in
    All (IsGroup 1209600000) groups × (in_groups of_milk groups ≡ length (select of_milk alerts))
group_price_alerts-IsGroup_example = group_price_alerts-IsGroup of_milk alerts 1209600000

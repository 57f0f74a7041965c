-- ===== src/Manual/Screen.antt =====
-- The screen for entering a receipt by hand, mobile/app/manual-entry.tsx, as steps over any order of
-- input and answers.
pub mod Sent
use grocery_genie.Base.{
  Eq, nat_eq, string_eq, option_beq, option_beq_iff, changed, trim, is_empty, ℕ, zero, suc, ◌+◌,
  ◌-◌, ◌*◌, ◌/◌, ◌%◌, ◌≤◌, ◌<◌, String, ◌≡◌, refl, sym, ap, subst, ◌∙◌, ◌≢◌, ◌↔◌, ◌⊎◌, inl, inr,
  Bool, true, false, not, ◌&&◌, ◌||◌, Option, none, some, List, [], ◌∷◌, ◌++◌, map, append-nil,
  append_assoc, map-append, arith, str_eq, eq_iff, eq_refl, ltb, leb, ◌==◌, if◌then◌else◌, ltb→lt,
  leb→le, ==_iff, Bool-cases, if_cases, Option-cases, or_else, is_some, length, select, find, any,
  take, drop, All, length-append, All-append, All-map, All-select, All-select_of, length-take-le,
  select-append, Pairwise, Pairwise-map, find-cases,
}
use grocery_genie.Base.Int.{ℤ}
use grocery_genie.Manual.{
  ManualLineItem, ReceiptItem, ManualReceipt, ManualEntry, add_line_item, with_name, with_price,
  update_name, update_price, other_line, remove_item, total_of, no_lines, can_save, name_or_number,
  sent_items, on_save, save_answered,
}

pub data Step : Type 0 where
  store_typed : String → Step
  line_added save_pressed : Step
  name_typed price_typed : ℕ → String → Step
  line_removed : ℕ → Step
  answered : Option String → Step

abbrev pub set_store_name : String → ManualEntry → ManualEntry
set_store_name text e = record e { store_name = text }

abbrev pub set_items : List ManualLineItem → ManualEntry → ManualEntry
set_items items e = record e { items = items }

module _ (amount_of : String → ℤ) (numeral : ℕ → String) where
  -- The mutation is answered while it is pending.
  unfoldable pub step : Step → ManualEntry → ManualEntry
  step (store_typed text) e = set_store_name text e
  step line_added e = set_items (add_line_item e.items) e
  step (name_typed id name) e = set_items (update_name id name e.items) e
  step (price_typed id price) e = set_items (update_price id price e.items) e
  step (line_removed id) e = set_items (remove_item id e.items) e
  step save_pressed e = on_save amount_of numeral e
  step (answered a) e = if e.mutation_pending then save_answered a e else e

  unfoldable pub run : List Step → ManualEntry → ManualEntry
  unfolding step
  run [] e = e
  run (x ∷ xs) e = run xs (step x e)

abbrev pub opened : ManualEntry
opened = record {
  store_name = "";
  items = [];
  mutation_pending = false;
  sent = [];
  went_back = 0;
  prompted = [];
  alerts = 0;
}

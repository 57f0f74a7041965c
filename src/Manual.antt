-- ===== src/Manual.antt =====
-- Entering a receipt by hand: mobile/app/manual-entry.tsx. A line's id "m3" is its number 3. The
-- amount that parseFloat reads from a price text, 0 where it reads none, and the decimal text of a
-- number are arguments.
pub mod Lines
pub mod Screen
mod Tests
use Prim.Native.String.{◌++◌ as append}
use grocery_genie.Base.{
  Eq, nat_eq, string_eq, option_beq, option_beq_iff, changed, trim, is_empty, ℕ, zero, suc, ◌+◌,
  ◌-◌, ◌*◌, ◌/◌, ◌%◌, ◌≤◌, ◌<◌, String, ◌≡◌, refl, sym, ap, subst, ◌∙◌, ◌≢◌, ◌↔◌, ◌⊎◌, inl, inr,
  Bool, true, false, not, ◌&&◌, ◌||◌, Option, none, some, List, [], ◌∷◌, ◌++◌, map, append-nil,
  append_assoc, map-append, arith, str_eq, eq_iff, eq_refl, ltb, leb, ◌==◌, if◌then◌else◌, ltb→lt,
  leb→le, ==_iff, Bool-cases, if_cases, Option-cases, or_else, is_some, length, select, find, any,
  take, drop, All, length-append, All-append, All-map, All-select, All-select_of, length-take-le,
  select-append, Pairwise, Pairwise-map,
}
use grocery_genie.Base.Int.{ℤ, pos, ◌+ℤ◌, ltb_ℤ}

pub record ManualLineItem : Type 0 where
  pub id : ℕ
  pub name : String
  pub price : String

pub record ReceiptItem : Type 0 where
  pub name : String
  pub quantity : ℕ
  pub unit_price : ℤ
  pub total_price : ℤ

pub record ManualReceipt : Type 0 where
  pub store_name : String
  pub total : ℤ
  pub items : List ReceiptItem

-- The screen, with the receipts given to the mutation and the calls of router and prompts so far.
pub record ManualEntry : Type 0 where
  pub store_name : String
  pub items : List ManualLineItem
  pub mutation_pending : Bool
  pub sent : List ManualReceipt
  pub went_back : ℕ
  pub prompted : List String
  pub alerts : ℕ

unfoldable pub add_line_item : List ManualLineItem → List ManualLineItem
add_line_item prev = prev ++ record { id = length prev + 1; name = ""; price = "" } ∷ []

abbrev pub with_name : ℕ → String → ManualLineItem → ManualLineItem
with_name id name i = if i.id == id then record i { name = name } else i

abbrev pub with_price : ℕ → String → ManualLineItem → ManualLineItem
with_price id price i = if i.id == id then record i { price = price } else i

unfoldable pub update_name : ℕ → String → List ManualLineItem → List ManualLineItem
update_name id name prev = map (with_name id name) prev

unfoldable pub update_price : ℕ → String → List ManualLineItem → List ManualLineItem
update_price id price prev = map (with_price id price) prev

abbrev pub other_line : ℕ → ManualLineItem → Bool
other_line id i = not (i.id == id)

unfoldable pub remove_item : ℕ → List ManualLineItem → List ManualLineItem
remove_item id prev = select (other_line id) prev

-- `amount_of text` is parseFloat(text) || 0.
module _ (amount_of : String → ℤ) (numeral : ℕ → String) where
  unfoldable pub total_of : List ManualLineItem → ℤ
  total_of [] = pos 0
  total_of (i ∷ is) = total_of is +ℤ amount_of i.price

  abbrev pub no_lines : List ManualLineItem → Bool
  no_lines [] = true
  no_lines (i ∷ is) = false

  unfoldable pub can_save : ManualEntry → Bool
  unfolding total_of
  can_save e =
      not (is_empty (trim e.store_name))
      && not (no_lines e.items)
      && ltb_ℤ (pos 0) (total_of e.items)
      && not e.mutation_pending

  abbrev pub name_or_number : String → ℕ → String
  name_or_number name n = if is_empty name then append "Item " (numeral n) else name

  -- The items that are sent, the first one being number `n`.
  unfoldable pub sent_items : ℕ → List ManualLineItem → List ReceiptItem
  sent_items n [] = []
  sent_items n (i ∷ is) =
      record {
        name = name_or_number (trim i.name) n;
        quantity = 1;
        unit_price = amount_of i.price;
        total_price = amount_of i.price;
      }
      ∷ sent_items (suc n) is

  -- What is sent of the entry.
  unfoldable pub receipt_of : ManualEntry → ManualReceipt
  unfolding total_of sent_items
  receipt_of e = record {
    store_name = trim e.store_name;
    total = total_of e.items;
    items = sent_items 1 e.items;
  }

  unfoldable pub on_save : ManualEntry → ManualEntry
  unfolding can_save receipt_of
  on_save e =
      if can_save e
      then record e { mutation_pending = true; sent = e.sent ++ receipt_of e ∷ [] }
      else e

-- The mutation is answered: the id of the new receipt, or `none` if it failed.
unfoldable pub save_answered : Option String → ManualEntry → ManualEntry
save_answered none e = record e { mutation_pending = false; alerts = e.alerts + 1 }
save_answered (some id) e = record e {
  mutation_pending = false;
  went_back = e.went_back + 1;
  prompted = e.prompted ++ id ∷ [];
}

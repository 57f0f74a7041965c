-- ===== src/Manual/Lines.antt =====
-- The lines of a manual receipt, their ids, and what is saved of them.
use grocery_genie.Base.{
  nat_eq, string_eq, is_empty, ℕ, suc, ◌+◌, ◌≤◌, ◌<◌, String, ◌≡◌, refl, sym, ap, ◌∙◌, ◌≢◌, ◌⊎◌,
  inl, inr, Bool, true, false, List, [], ◌∷◌, ◌++◌, map, arith, ◌==◌, if◌then◌else◌, if_cases,
  length, select, All, All-append,
}
use grocery_genie.Base.Int.{ℤ, pos, ◌+ℤ◌, ltb_ℤ}
use grocery_genie.Manual.{
  receipt_of, ManualLineItem, ReceiptItem, ManualReceipt, ManualEntry, add_line_item, with_name,
  with_price, update_name, update_price, remove_item, total_of, no_lines, can_save, sent_items,
  on_save,
}

abbrev has_id : ℕ → ManualLineItem → Bool
has_id id i = i.id == id

-- How many lines have this id.
abbrev pub times : ℕ → List ManualLineItem → ℕ
times id is = length (select (has_id id) is)

-- The lines have the ids `k`, `k + 1` and so on.
abbrev pub IsNumbered : ℕ → List ManualLineItem → Type 0
IsNumbered k [] = Unit
IsNumbered k (i ∷ is) = (i.id ≡ k) × IsNumbered (suc k) is

times-snoc :
    (id : ℕ) (x : ManualLineItem) (is : List ManualLineItem)
    → times id (is ++ x ∷ []) ≡ times id is + (if x.id == id then 1 else 0)
times-snoc id x [] = ground arith
times-snoc id x (i ∷ is) = ground (arith, times-snoc id x is)

times-below : (id k : ℕ) (is : List ManualLineItem) → IsNumbered k is → id < k → times id is ≡ 0
times-below id k [] h lt = refl
times-below id k (i ∷ is) h lt = ground (arith, h.0, lt, times-below id (suc k) is h.1)

times-numbered :
    (id k : ℕ) (is : List ManualLineItem)
    → IsNumbered k is
    → k ≤ id
    → id < k + length is
    → times id is ≡ 1
times-numbered id k [] h le lt = absurd (omega (arith, le, lt))
times-numbered id k (i ∷ is) h le lt =
    ground (arith, h.0, le, lt, times-below id (suc k) is h.1, times-numbered id (suc k) is h.1)

times-remove :
    (id k : ℕ) (is : List ManualLineItem) → id ≢ k → times id (remove_item k is) ≡ times id is
unfolding remove_item
times-remove id k [] apart = refl
times-remove id k (i ∷ is) apart = ground (arith, apart, times-remove id k is apart)

length-remove :
    (k : ℕ) (is : List ManualLineItem) → length (remove_item k is) + times k is ≡ length is
unfolding remove_item
length-remove k [] = refl
length-remove k (i ∷ is) = ground (arith, length-remove k is)

-- Of lines with the ids 1 to n, any but the last is removed and a line is added: then two lines
-- have the id n, since the new line is numbered by how many there are.
pub add-remove-clashes :
    (k : ℕ) (is : List ManualLineItem)
    → IsNumbered 1 is
    → 1 ≤ k
    → k < length is
    → times (length is) (add_line_item (remove_item k is)) ≡ 2
unfolding add_line_item
add-remove-clashes k is h le lt =
    let n = length is in
    let new : ManualLineItem = record {
      id = length (remove_item k is) + 1;
      name = "";
      price = "";
    } in
    ground (
      arith,
      times-snoc n new (remove_item k is),
      times-remove n k is (λ e. omega (arith, e, lt)),
      length-remove k is,
      times-numbered k 1 is h le (omega (arith, lt)),
      times-numbered n 1 is h (omega (arith, le, lt)) (omega arith),
    )

pub data LineEdit : Type 0 where
  added : LineEdit
  named priced : ℕ → String → LineEdit

unfoldable pub edit_line : LineEdit → List ManualLineItem → List ManualLineItem
unfolding add_line_item update_name update_price
edit_line added is = add_line_item is
edit_line (named id name) is = update_name id name is
edit_line (priced id price) is = update_price id price is

unfoldable pub edit_lines : List LineEdit → List ManualLineItem → List ManualLineItem
unfolding edit_line
edit_lines [] is = is
edit_lines (e ∷ es) is = edit_lines es (edit_line e is)

IsNumbered-snoc :
    (k : ℕ) (x : ManualLineItem) (is : List ManualLineItem)
    → IsNumbered k is
    → x.id ≡ k + length is
    → IsNumbered k (is ++ x ∷ [])
IsNumbered-snoc k x [] h e = (omega (arith, e), tt)
IsNumbered-snoc k x (i ∷ is) h e = (h.0, IsNumbered-snoc (suc k) x is h.1 (omega (arith, e)))

IsNumbered-map :
    (f : ManualLineItem → ManualLineItem) (k : ℕ) (is : List ManualLineItem)
    → ((i : ManualLineItem) → (f i).id ≡ i.id)
    → IsNumbered k is
    → IsNumbered k (map f is)
IsNumbered-map f k [] same h = tt
IsNumbered-map f k (i ∷ is) same h = (same i ∙ h.0, IsNumbered-map f (suc k) is same h.1)

edit_line-IsNumbered :
    (e : LineEdit) (is : List ManualLineItem) → IsNumbered 1 is → IsNumbered 1 (edit_line e is)
unfolding edit_line add_line_item update_name update_price
edit_line-IsNumbered added is h = IsNumbered-snoc 1 _ is h (omega arith)
edit_line-IsNumbered (named id name) is h =
    IsNumbered-map (with_name id name) 1 is (λ i. ground arith) h
edit_line-IsNumbered (priced id price) is h =
    IsNumbered-map (with_price id price) 1 is (λ i. ground arith) h

pub edit_lines-IsNumbered :
    (es : List LineEdit) (is : List ManualLineItem)
    → IsNumbered 1 is
    → IsNumbered 1 (edit_lines es is)
unfolding edit_lines
edit_lines-IsNumbered [] is h = h
edit_lines-IsNumbered (e ∷ es) is h =
    edit_lines-IsNumbered es (edit_line e is) (edit_line-IsNumbered e is h)

-- What the items of a receipt add up to.
abbrev pub items_total : List ReceiptItem → ℤ
items_total [] = pos 0
items_total (i ∷ is) = items_total is +ℤ i.total_price

-- A receipt that may be saved: its total is above 0 and what its items add up to, its store is
-- named and it has an item.
pub record IsSound (r : ManualReceipt) : Type 0 where
  pub total : r.total ≡ items_total r.items
  pub some_total : ltb_ℤ (pos 0) r.total ≡ true
  pub store_named : is_empty r.store_name ≡ false
  pub some_items : 1 ≤ length r.items

module _ (amount_of : String → ℤ) (numeral : ℕ → String) where
  sent_items-total :
      (n : ℕ) (is : List ManualLineItem)
      → items_total (sent_items amount_of numeral n is) ≡ total_of amount_of numeral is
  unfolding sent_items total_of
  sent_items-total n [] = refl
  sent_items-total n (i ∷ is) = ap (λ z. z +ℤ amount_of i.price) (sent_items-total (suc n) is)

  some_sent :
      (n : ℕ) (is : List ManualLineItem)
      → no_lines amount_of numeral is ≡ false
      → 1 ≤ length (sent_items amount_of numeral n is)
  unfolding sent_items
  some_sent n [] h = absurd (ground (arith, h))
  some_sent n (i ∷ is) h = omega arith

-- Saving sends only sound receipts, and none while one is being saved.
pub on_save-IsSound :
    (amount_of : String → ℤ) (numeral : ℕ → String) (e : ManualEntry)
    → All IsSound e.sent
    → let e' = on_save amount_of numeral e in
      All IsSound e'.sent × ((e'.sent ≡ e.sent) ⊎ (e.mutation_pending ≡ false))
unfolding on_save
on_save-IsSound amount_of numeral e sound =
    if_cases (can_save amount_of numeral e)
      (λ (e' : ManualEntry).
        All IsSound e'.sent × ((e'.sent ≡ e.sent) ⊎ (e.mutation_pending ≡ false)))
      (λ can.
        unfold can_save receipt_of in
        (
          All-append IsSound e.sent _ sound (
            record {
              total = sym (sent_items-total amount_of numeral 1 e.items);
              some_total = ground (arith, can);
              store_named = ground (arith, can);
              some_items = some_sent amount_of numeral 1 e.items (ground (arith, can));
            },
            tt,
          ),
          inr (ground (arith, can)),
        ))
      (λ cannot. (sound, inl refl))

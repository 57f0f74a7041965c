-- ===== src/Manual/Tests.antt =====
-- A manual entry on a small example.
use grocery_genie.Base.{
  nat_eq, string_eq, is_empty, ℕ, String, ◌≡◌, refl, none, some, List, [], ◌∷◌, arith,
  if◌then◌else◌,
}
use grocery_genie.Base.Int.{ℤ, pos}
use grocery_genie.Manual.{ManualLineItem, add_line_item, remove_item}
use grocery_genie.Manual.Lines.{times, add-remove-clashes}
use grocery_genie.Manual.Screen.{Step, store_typed, line_added, save_pressed, price_typed, answered}

abbrev line : ℕ → ManualLineItem
line k = record { id = k; name = "Milk"; price = "1.99" }

add-remove-clashes_example :
    times 3 (add_line_item (remove_item 2 (line 1 ∷ line 2 ∷ line 3 ∷ []))) ≡ 2
add-remove-clashes_example =
    add-remove-clashes 2 (line 1 ∷ line 2 ∷ line 3 ∷ []) (refl, (refl, (refl, tt))) (omega arith)
      (omega arith)

abbrev one_euro : String → ℤ
one_euro price = if is_empty price then pos 0 else pos 100

abbrev no_numeral : ℕ → String
no_numeral n = ""

abbrev typed : List Step
typed =
    line_added
    ∷ price_typed 1 "1.00"
    ∷ store_typed "Aldi"
    ∷ save_pressed
    ∷ answered none
    ∷ save_pressed
    ∷ answered (some "r1")
    ∷ []

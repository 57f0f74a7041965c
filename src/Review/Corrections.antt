-- ===== src/Review/Corrections.antt =====
-- A confirmed review sends what the user changed, and nothing else.
use grocery_genie.Base.{
  Eq, nat_eq, string_eq, option_beq_iff, trim, is_empty, String, ◌≡◌, refl, sym, subst, ◌≢◌, ◌↔◌,
  ◌⊎◌, inl, inr, Bool, true, false, ◌&&◌, ◌||◌, Option, none, some, List, [], ◌∷◌, arith, eq_iff,
  if◌then◌else◌, Bool-cases, Option-cases, or_else, All,
}
use grocery_genie.Review.{
  same_store, LineItemExtraction, ReceiptExtraction, EditableLineItem, LineItemCorrection,
  original_of, correction_of, says_something, correct_with, correct, corrections, non_empty,
  build_receipt_update,
}

-- A correction as the server applies it: each field that is sent replaces the stored one.
abbrev pub over {ℓ} : {A : Type ℓ} → Option A → A → A
over none old = old
over (some new) old = new

abbrev pub sent_category : Option (Option String) → Option String → Option String
sent_category none old = old
sent_category (some none) old = old
sent_category (some (some c)) old = some c

module _ {N : Type 0} where
  unfoldable pub corrected : LineItemCorrection N → LineItemExtraction N → LineItemExtraction N
  corrected c o = record o {
    name = over c.name o.name;
    category_id = sent_category c.category_id o.category_id;
    quantity = over c.quantity o.quantity;
    total_price = over c.total_price o.total_price;
  }

  unfoldable pub after_correction :
      Option (LineItemCorrection N) → LineItemExtraction N → LineItemExtraction N
  unfolding corrected
  after_correction none o = o
  after_correction (some c) o = corrected c o

sent_store_name :
    (stored : Option String) (s : String)
    → let sent = if is_empty s || same_store stored s then none else some s in
      (sent ≡ none) ⊎ ((sent ≡ some s) × (stored ≢ some s) × (is_empty s ≡ false))
sent_store_name none s = ground arith
sent_store_name (some t) s = ground (arith, eq_iff s t)

-- A category can be changed by a review but not taken away.
abbrev pub KeepsCategory : Option String → Option String → Type 0
KeepsCategory new old = (new ≡ old) ⊎ (new ≢ none)

module _ {N : Type 0} ⦃e : Eq N⦄ where
  corrected-correction_of :
      (item : EditableLineItem N) (o : LineItemExtraction N)
      → KeepsCategory item.category_id o.category_id
      → let stored = corrected (correction_of item o) o in
        (stored.name ≡ item.name)
        × (stored.category_id ≡ item.category_id)
        × (stored.quantity ≡ item.quantity)
        × (stored.total_price ≡ item.total_price)
  unfolding corrected
  corrected-correction_of item o keeps = ground (
    arith,
    eq_iff item.name o.name,
    option_beq_iff item.category_id o.category_id,
    e.beq_iff item.quantity o.quantity,
    e.beq_iff item.total_price o.total_price,
  )

  corrected_silent :
      (c : LineItemCorrection N) (o : LineItemExtraction N)
      → says_something c ≡ false
      → corrected c o ≡ o
  unfolding corrected
  corrected_silent c o quiet = ground arith

  after_correction-correct_with :
      (item : EditableLineItem N) (o : LineItemExtraction N)
      → item.is_edited ≡ true
      → after_correction (correct_with item (some o)) o ≡ corrected (correction_of item o) o
  unfolding after_correction
  after_correction-correct_with item o edited =
      elim (Bool-cases (says_something (correction_of item o))) [
        | inl says ↦ rw (edited, says) refl
        | inr quiet ↦ rw (edited, quiet) (sym (corrected_silent (correction_of item o) o quiet))
      ]

  -- An edited item that the scan read: the stored item, corrected as the review says, has the name,
  -- category, quantity and price that the user sees, if the review did not take a category away.
  pub correct-reviewed :
      (originals : List (LineItemExtraction N)) (item : EditableLineItem N)
      (o : LineItemExtraction N)
      → item.is_edited ≡ true
      → original_of item.id originals ≡ some o
      → KeepsCategory item.category_id o.category_id
      → let stored = after_correction (correct originals item) o in
        (stored.name ≡ item.name)
        × (stored.category_id ≡ item.category_id)
        × (stored.quantity ≡ item.quantity)
        × (stored.total_price ≡ item.total_price)
  unfolding correct
  correct-reviewed originals item o edited found keeps =
      rw (found, after_correction-correct_with item o edited) (corrected-correction_of item o keeps)

  abbrev pub Among : EditableLineItem N → List (EditableLineItem N) → Type 0
  Among item [] = ⊥
  Among item (i ∷ is) = (item ≡ i) ⊎ Among item is

  -- Each correction that is sent is for an item of the form that was edited and that the scan read,
  -- says something, and sends a field only where the item differs from the scan.
  pub record IsNeeded (originals : List (LineItemExtraction N)) (items : List (EditableLineItem N))
      (c : LineItemCorrection N) : Type 0 where
    pub item : EditableLineItem N
    pub original : LineItemExtraction N
    pub found : original_of c.id originals ≡ some original
    pub edited : item.is_edited ≡ true
    pub among : Among item items
    pub same_id : c.id ≡ item.id
    pub says : says_something c ≡ true
    pub name : (c.name ≡ none) ⊎ ((c.name ≡ some item.name) × (item.name ≢ original.name))
    pub category_id :
        (c.category_id ≡ none)
        ⊎ ((c.category_id ≡ some item.category_id) × (item.category_id ≢ original.category_id))
    pub quantity :
        (c.quantity ≡ none)
        ⊎ ((c.quantity ≡ some item.quantity) × (item.quantity ≢ original.quantity))
    pub total_price :
        (c.total_price ≡ none)
        ⊎ ((c.total_price ≡ some item.total_price) × (item.total_price ≢ original.total_price))

  correction_of-IsNeeded :
      (originals : List (LineItemExtraction N)) (items : List (EditableLineItem N))
      (item : EditableLineItem N) (o : LineItemExtraction N)
      → Among item items
      → original_of item.id originals ≡ some o
      → item.is_edited ≡ true
      → says_something (correction_of item o) ≡ true
      → IsNeeded originals items (correction_of item o)
  correction_of-IsNeeded originals items item o m f edited says = record {
    item = item;
    original = o;
    found = f;
    edited = edited;
    among = m;
    same_id = refl;
    says = says;
    name = ground (arith, eq_iff item.name o.name);
    category_id = ground (arith, option_beq_iff item.category_id o.category_id);
    quantity = ground (arith, e.beq_iff item.quantity o.quantity);
    total_price = ground (arith, e.beq_iff item.total_price o.total_price);
  }

  correct_with-IsNeeded :
      (originals : List (LineItemExtraction N)) (items : List (EditableLineItem N))
      (item : EditableLineItem N) (found : Option (LineItemExtraction N)) (c : LineItemCorrection N)
      → Among item items
      → original_of item.id originals ≡ found
      → correct_with item found ≡ some c
      → IsNeeded originals items c
  correct_with-IsNeeded originals items item none c m f k = absurd (cc)
  correct_with-IsNeeded originals items item (some o) c m f k =
      elim (Bool-cases (item.is_edited && says_something (correction_of item o))) [
        | inl both ↦
            let same : some (correction_of item o) ≡ some c = rw both at k in
            let there : correction_of item o ≡ c = cc in
            subst (IsNeeded originals items) there
              (correction_of-IsNeeded originals items item o m f (ground arith) (ground arith))
        | inr no_need ↦
            let nothing : ◌≡◌ {A = Option (LineItemCorrection N)} none (some c) = rw no_need at k in
            absurd (cc)
      ]

  corrections-IsNeeded :
      (originals : List (LineItemExtraction N)) (all items : List (EditableLineItem N))
      → ((i : EditableLineItem N) → Among i items → Among i all)
      → All (IsNeeded originals all) (corrections originals items)
  unfolding corrections
  corrections-IsNeeded originals all [] sub = tt
  corrections-IsNeeded originals all (item ∷ items) sub =
      let rest = corrections-IsNeeded originals all items (λ i m. sub i (inr m)) in
      elim (Option-cases (correct originals item)) [
        | inl nothing ↦ rw nothing rest
        | inr (c, some_c) ↦ rw some_c (
          unfold correct in
              correct_with-IsNeeded originals all item (original_of item.id originals) c
                (sub item (inl refl)) refl some_c,
          rest,
        )
      ]

  non_empty-or_else : (cs : List (LineItemCorrection N)) → or_else (non_empty cs) [] ≡ cs
  non_empty-or_else [] = refl
  non_empty-or_else (c ∷ cs) = refl

  -- The update of a review has corrections only for edited items of the form, under their ids, of
  -- which the scan read the original. Each gives a name, category, quantity or price only where the
  -- item differs from the original, and gives at least one of them; a category that was taken away
  -- is given as none. The status is sent only to confirm, and a store name or date only if it is not
  -- empty and differs from the scan's.
  pub build_receipt_update-IsNeeded :
      (x : ReceiptExtraction N) (items : List (EditableLineItem N))
      (store_name receipt_date : String) (confirm : Bool)
      → let update = build_receipt_update x items store_name receipt_date confirm in
        All (IsNeeded x.items items) (or_else update.items [])
        × ((update.status ≡ some "confirmed") ↔ (confirm ≡ true))
        × ((update.store_name ≡ none)
            ⊎ ((update.store_name ≡ some (trim store_name))
                × (x.store_name ≢ some (trim store_name))
                × (is_empty (trim store_name) ≡ false)))
        × ((update.date ≡ none)
            ⊎ ((update.date ≡ some receipt_date)
                × (receipt_date ≢ x.date)
                × (is_empty receipt_date ≡ false)))
  unfolding build_receipt_update
  build_receipt_update-IsNeeded x items store_name receipt_date confirm = (
    subst (All (IsNeeded x.items items)) (sym (non_empty-or_else (corrections x.items items)))
        (corrections-IsNeeded x.items items items (λ i m. m)),
    ground arith,
    sent_store_name x.store_name (trim store_name),
    ground (arith, eq_iff receipt_date x.date),
  )

-- ===== src/Base/Sorting.antt =====
-- The stable sort of a list by an order that is total and transitive.
use mathlib.Core.Path.{◌≡◌, refl, ◌∙◌}
use mathlib.Core.Bool.{Bool, true, false}
use mathlib.Core.List.{List, [], ◌∷◌}
use native.Mathlib.Omega.{arith}
use grocery_genie.Base.Tests.{if◌then◌else◌, if_cases}
use grocery_genie.Base.Lists.{length, select, All, All-select_of}

-- `le a b`: `a` may stand before `b`. The order is asked of the valid elements only.
pub record Order (A : Type 0) : Type 1 where
  pub Valid : A → Type 0
  pub le : A → A → Bool
  pub total : (a b : A) → le a b ≡ false → le b a ≡ true
  pub trans :
      (a b c : A) → Valid a → Valid b → Valid c → le a b ≡ true → le b c ≡ true → le a c ≡ true

module _ {A : Type 0} (le : A → A → Bool) where
  unfoldable pub insert_by : A → List A → List A
  insert_by x [] = x ∷ []
  insert_by x (y ∷ ys) = let rest = insert_by x ys in if le x y then x ∷ y ∷ ys else y ∷ rest

  -- xs.sort(compare), where `le a b` says that compare(a, b) is not positive
  unfoldable pub sort_by : List A → List A
  unfolding insert_by
  sort_by [] = []
  sort_by (x ∷ xs) = insert_by x (sort_by xs)

  abbrev pub Ascending : List A → Type 0
  Ascending [] = Unit
  Ascending (x ∷ xs) = All (λ y. le x y ≡ true) xs × Ascending xs

  insert_by-All : (P : A → Type 0) (x : A) (ys : List A) → P x → All P ys → All P (insert_by x ys)
  unfolding insert_by
  insert_by-All P x [] h hs = (h, tt)
  insert_by-All P x (y ∷ ys) h hs =
      if_cases (le x y) (All P) (λ first. (h, hs)) (λ after. (hs.0, insert_by-All P x ys h hs.1))

  pub sort_by-All : (P : A → Type 0) (xs : List A) → All P xs → All P (sort_by xs)
  unfolding sort_by
  sort_by-All P [] hs = tt
  sort_by-All P (x ∷ xs) hs = insert_by-All P x (sort_by xs) hs.0 (sort_by-All P xs hs.1)

  select-insert_by :
      (p : A → Bool) (x : A) (ys : List A)
      → length (select p (insert_by x ys)) ≡ length (select p (x ∷ ys))
  unfolding insert_by
  select-insert_by p x [] = refl
  select-insert_by p x (y ∷ ys) =
      if_cases (le x y) (λ zs. length (select p zs) ≡ length (select p (x ∷ y ∷ ys)))
        (λ first. refl) (λ after. ground (arith, select-insert_by p x ys))

  -- Nothing is lost or added.
  pub select-sort_by :
      (p : A → Bool) (xs : List A) → length (select p (sort_by xs)) ≡ length (select p xs)
  unfolding sort_by
  select-sort_by p [] = refl
  select-sort_by p (x ∷ xs) =
      select-insert_by p x (sort_by xs) ∙ ground (arith, select-sort_by p xs)

  length-insert_by : (x : A) (ys : List A) → length (insert_by x ys) ≡ length (x ∷ ys)
  unfolding insert_by
  length-insert_by x [] = refl
  length-insert_by x (y ∷ ys) = ground (arith, length-insert_by x ys)

  pub length-sort_by : (xs : List A) → length (sort_by xs) ≡ length xs
  unfolding sort_by
  length-sort_by [] = refl
  length-sort_by (x ∷ xs) = length-insert_by x (sort_by xs) ∙ omega (arith, length-sort_by xs)

module _ {A : Type 0} (o : Order A) where
  insert_by-Ascending :
      (x : A) (ys : List A)
      → o.Valid x
      → All o.Valid ys
      → Ascending o.le ys
      → Ascending o.le (insert_by o.le x ys)
  unfolding insert_by
  insert_by-Ascending x [] v vs h = (tt, tt)
  insert_by-Ascending x (y ∷ ys) v vs h =
      if_cases (o.le x y) (Ascending o.le)
        (λ first. ((first, before_all x y ys v vs.0 first vs.1 h.0), h))
        (λ after. (
          insert_by-All o.le (λ z. o.le y z ≡ true) x ys (o.total x y after) h.0,
          insert_by-Ascending x ys v vs.1 h.1,
        ))
    where
      before_all :
          (x y : A) (ys : List A)
          → o.Valid x
          → o.Valid y
          → o.le x y ≡ true
          → All o.Valid ys
          → All (λ z. o.le y z ≡ true) ys
          → All (λ z. o.le x z ≡ true) ys
      before_all x y [] v w first vs h = tt
      before_all x y (z ∷ zs) v w first vs h =
          (o.trans x y z v w vs.0 first h.0, before_all x y zs v w first vs.1 h.1)

  pub sort_by-Ascending : (xs : List A) → All o.Valid xs → Ascending o.le (sort_by o.le xs)
  unfolding sort_by
  sort_by-Ascending [] vs = tt
  sort_by-Ascending (x ∷ xs) vs =
      insert_by-Ascending x (sort_by o.le xs) vs.0 (sort_by-All o.le o.Valid xs vs.1)
        (sort_by-Ascending xs vs.1)

module _ {A : Type 0} (le : A → A → Bool) where
  -- Leaving elements out keeps the order.
  pub Ascending-select : (p : A → Bool) (xs : List A) → Ascending le xs → Ascending le (select p xs)
  Ascending-select p [] h = tt
  Ascending-select p (x ∷ xs) h =
      if_cases (p x) (Ascending le)
        (λ kept. (All-select_of (λ y. le x y ≡ true) p xs h.0, Ascending-select p xs h.1))
        (λ left_out. Ascending-select p xs h.1)

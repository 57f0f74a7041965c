-- ===== src/Base/Lists.antt =====
-- Lists measured by native numbers, and predicates on lists that compute.
use Prim.Native.Nat.{ℕ, zero, suc, ◌+◌, ◌≤◌}
use mathlib.Core.Path.{◌≡◌, refl}
use mathlib.Core.Logic.{◌⊎◌, inl, inr}
use mathlib.Core.Bool.{Bool, true, false, ◌||◌}
use mathlib.Core.Option.{Option, none, some}
use mathlib.Core.List.{List, [], ◌∷◌, ◌++◌, map}
use native.Mathlib.Omega.{arith}
use grocery_genie.Base.Tests.{if◌then◌else◌, if_cases}

module _ {ℓ} {A : Type ℓ} where
  abbrev pub length : List A → ℕ
  length [] = 0
  length (x ∷ xs) = suc (length xs)

  -- xs.filter(p)
  abbrev pub select : (A → Bool) → List A → List A
  select p [] = []
  select p (x ∷ xs) = if p x then x ∷ select p xs else select p xs

  -- xs.find(p)
  abbrev pub find : (A → Bool) → List A → Option A
  find p [] = none
  find p (x ∷ xs) = if p x then some x else find p xs

  -- xs.some(p)
  abbrev pub any : (A → Bool) → List A → Bool
  any p [] = false
  any p (x ∷ xs) = p x || any p xs

  abbrev pub take : ℕ → List A → List A
  take zero xs = []
  take (suc n) [] = []
  take (suc n) (x ∷ xs) = x ∷ take n xs

  abbrev pub drop : ℕ → List A → List A
  drop zero xs = xs
  drop (suc n) [] = []
  drop (suc n) (x ∷ xs) = drop n xs

  abbrev pub All {κ} : (A → Type κ) → List A → Type κ
  All P [] = Unit
  All P (x ∷ xs) = P x × All P xs

  pub length-append : (xs ys : List A) → length (xs ++ ys) ≡ length xs + length ys
  length-append [] ys = omega arith
  length-append (x ∷ xs) ys = omega (arith, length-append xs ys)

module _ {ℓ} {A : Type ℓ} where
  pub All-append {κ} : (P : A → Type κ) (xs ys : List A) → All P xs → All P ys → All P (xs ++ ys)
  All-append P [] ys hx hy = hy
  All-append P (x ∷ xs) ys hx hy = (hx.0, All-append P xs ys hx.1 hy)

  pub All-map {κ μ} :
      (P : A → Type κ) (Q : A → Type μ) (f : (a : A) → P a → Q a) (xs : List A)
      → All P xs
      → All Q xs
  All-map P Q f [] h = tt
  All-map P Q f (x ∷ xs) h = (f x h.0, All-map P Q f xs h.1)

  pub All-select : (p : A → Bool) (xs : List A) → All (λ a. p a ≡ true) (select p xs)
  All-select p [] = tt
  All-select p (x ∷ xs) = ground (arith, All-select p xs)

  pub All-select_of {κ} :
      (P : A → Type κ) (p : A → Bool) (xs : List A) → All P xs → All P (select p xs)
  All-select_of P p [] h = tt
  All-select_of P p (x ∷ xs) h = ground (arith, All-select_of P p xs h.1)

  pub length-take-le : (n : ℕ) (xs : List A) → length (take n xs) ≤ n
  length-take-le zero xs = omega arith
  length-take-le (suc n) [] = omega arith
  length-take-le (suc n) (x ∷ xs) = omega (arith, length-take-le n xs)

  pub select-append :
      (p : A → Bool) (xs ys : List A) → select p (xs ++ ys) ≡ select p xs ++ select p ys
  select-append p [] ys = refl
  select-append p (x ∷ xs) ys = ground (arith, select-append p xs ys)

-- The two lists have the same length and `R` holds of the elements at each position.
abbrev pub Pairwise {ℓ} : {A B : Type ℓ} → (A → B → Type 0) → List A → List B → Type 0
Pairwise R [] [] = Unit
Pairwise R [] (b ∷ ys) = ⊥
Pairwise R (a ∷ xs) [] = ⊥
Pairwise R (a ∷ xs) (b ∷ ys) = R a b × Pairwise R xs ys

pub Pairwise-map {ℓ} :
    {A B : Type ℓ} (R : A → B → Type 0) (f : B → B)
    → ((a : A) (b : B) → R a b → R a (f b))
    → (xs : List A) (ys : List B) → Pairwise R xs ys
    → Pairwise R xs (map f ys)
Pairwise-map R f keeps [] [] h = tt
Pairwise-map R f keeps [] (b ∷ ys) h = h
Pairwise-map R f keeps (a ∷ xs) [] h = h
Pairwise-map R f keeps (a ∷ xs) (b ∷ ys) h = (keeps a b h.0, Pairwise-map R f keeps xs ys h.1)

module _ {A : Type 0} where
  -- What `find` finds passes the test; if it finds nothing, nothing does.
  pub find-cases :
      (p : A → Bool) (xs : List A)
      → ((find p xs ≡ none) × All (λ a. p a ≡ false) xs)
        ⊎ ((a : A) × (find p xs ≡ some a) × (p a ≡ true))
  find-cases p [] = inl (refl, tt)
  find-cases p (x ∷ xs) =
      if_cases (p x)
        (λ (o : Option A).
          ((o ≡ none) × All (λ a. p a ≡ false) (x ∷ xs)) ⊎ ((a : A) × (o ≡ some a) × (p a ≡ true)))
        (λ here. inr (x, refl, here))
        (λ not_here. elim (find-cases p xs) [
          | inl nowhere ↦ inl (nowhere.0, (not_here, nowhere.1))
          | inr found ↦ inr found
        ])

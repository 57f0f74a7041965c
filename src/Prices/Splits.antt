-- ===== src/Prices/Splits.antt =====
-- When a split can be saved.
use grocery_genie.Base.{
  nat_eq, string_eq, trim, is_empty, String, ◌≡◌, refl, sym, ap, subst, ◌≢◌, ◌↔◌, ◌⊎◌, inl, inr,
  true, false, not, ◌||◌, List, [], ◌∷◌, ◌++◌, arith, eq_iff, Bool-cases, any, All,
}
use grocery_genie.Prices.{SplitDraft, is_nil, moved, incomplete, mem, can_save_split}

abbrev pub Member : String → List String → Type 0
Member i [] = ⊥
Member i (j ∷ is) = (j ≡ i) ⊎ Member i is

-- A draft has a name, not only spaces, and a line.
abbrev pub Complete : SplitDraft → Type 0
Complete d = (trim d.name ≢ "") × (d.lines ≢ [])

-- Some line stays with the original: no draft takes it.
abbrev pub Stays : List String → List SplitDraft → Type 0
Stays all_lines drafts = (i : String) × Member i all_lines × All (λ d. Member i d.lines → ⊥) drafts

mem_iff : (i : String) (is : List String) → (mem i is ≡ true) ↔ Member i is
mem_iff i [] = ground arith
mem_iff i (j ∷ is) = ground (arith, eq_iff j i, mem_iff i is)

mem-append : (i : String) (xs ys : List String) → mem i (xs ++ ys) ≡ (mem i xs || mem i ys)
mem-append i [] ys = refl
mem-append i (x ∷ xs) ys = ground (arith, mem-append i xs ys)

mem-moved :
    (i : String) (ds : List SplitDraft)
    → (mem i (moved ds) ≡ false) ↔ All (λ d. Member i d.lines → ⊥) ds
unfolding moved
mem-moved i [] = ground arith
mem-moved i (d ∷ ds) =
    ground (arith, mem-append i d.lines (moved ds), mem_iff i d.lines, mem-moved i ds)

is_empty_iff : (s : String) → (is_empty s ≡ true) ↔ (s ≡ "")
is_empty_iff String.[] = ((λ k. refl), (λ k. refl))
is_empty_iff (String.◌∷◌ c s) = ((λ k. absurd (ground arith)), (λ k. ap is_empty k))

is_nil_iff : (is : List String) → (is_nil is ≡ true) ↔ (is ≡ [])
is_nil_iff [] = ground arith
is_nil_iff (i ∷ is) = ground arith

any-incomplete : (ds : List SplitDraft) → (any incomplete ds ≡ false) ↔ All Complete ds
any-incomplete [] = ground arith
any-incomplete (d ∷ ds) =
    ground (arith, is_empty_iff (trim d.name), is_nil_iff d.lines, any-incomplete ds)

Stays-from :
    (is : List String) (ds : List SplitDraft)
    → any (λ i. not (mem i (moved ds))) is ≡ true
    → Stays is ds
Stays-from [] ds h = absurd (ground arith)
Stays-from (i ∷ is) ds h = elim (Bool-cases (mem i (moved ds))) [
  | inl taken ↦ let (j, there, free) = Stays-from is ds (ground arith) in (j, inr there, free)
  | inr free ↦ (i, inl refl, (mem-moved i ds).0 free)
]

Stays-found :
    (i : String) (is : List String) (ds : List SplitDraft)
    → Member i is
    → mem i (moved ds) ≡ false
    → any (λ j. not (mem j (moved ds))) is ≡ true
Stays-found i [] ds m free = absurd m
Stays-found i (j ∷ is) ds (inl e) free =
    let there : mem j (moved ds) ≡ false = subst (λ x. mem x (moved ds) ≡ false) (sym e) free in
    ground arith
Stays-found i (j ∷ is) ds (inr m) free = ground (arith, Stays-found i is ds m free)

Stays-iff :
    (is : List String) (ds : List SplitDraft)
    → (any (λ i. not (mem i (moved ds))) is ≡ true) ↔ Stays is ds
Stays-iff is ds =
    (Stays-from is ds, λ (i, m, free). Stays-found i is ds m ((mem-moved i ds).1 free))

-- Save is enabled exactly if there is a draft, each draft has a name and a line, and the original
-- keeps one of its lines.
can_save_split_iff :
    (all_lines : List String) (drafts : List SplitDraft)
    → (can_save_split all_lines drafts ≡ true)
      ↔ ((drafts ≢ []) × All Complete drafts × Stays all_lines drafts)
unfolding can_save_split
can_save_split_iff all_lines [] = ground arith
can_save_split_iff all_lines (d ∷ ds) =
    ground (arith, any-incomplete (d ∷ ds), Stays-iff all_lines (d ∷ ds))

-- ===== src/Budget/Highlights.antt =====
-- The highest and the lowest month of the trend are what the screen says they are.
use grocery_genie.Base.{
  nat_eq, string_eq, ◌≤◌, ◌<◌, String, ◌≡◌, refl, sym, ap, subst, ◌∙◌, ◌⊎◌, inl, inr, Bool, true,
  false, Option, none, some, List, [], ◌∷◌, ◌++◌, append-nil, append_assoc, arith, ltb,
  if◌then◌else◌, ltb→lt, if_cases, All, All-append, All-map,
}
use grocery_genie.Budget.{
  TrendMonth, Percent, highest_from, is_skipped, lower, lowest_from, build_trend_highlights,
}

-- `h` is a month of the list, above every one before it and not below any after it.
pub record IsHighest (h : TrendMonth) (months : List TrendMonth) : Type 0 where
  pub before : List TrendMonth
  pub after : List TrendMonth
  pub there : months ≡ before ++ h ∷ after
  pub above : All (λ m. m.total < h.total) before
  pub not_below : All (λ m. m.total ≤ h.total) after

All-weaken :
    (h m : TrendMonth) (xs : List TrendMonth)
    → h.total < m.total
    → All (λ x. x.total ≤ h.total) xs
    → All (λ x. x.total < m.total) xs
All-weaken h m xs lt a =
    All-map (λ x. x.total ≤ h.total) (λ x. x.total < m.total) (λ x le. omega (arith, le)) xs a

All-lt-le :
    (h : TrendMonth) (xs : List TrendMonth)
    → All (λ x. x.total < h.total) xs
    → All (λ x. x.total ≤ h.total) xs
All-lt-le h xs a =
    All-map (λ x. x.total < h.total) (λ x. x.total ≤ h.total) (λ x lt. omega (arith, lt)) xs a

snoc :
    (before after : List TrendMonth) (h m : TrendMonth)
    → (before ++ h ∷ after) ++ m ∷ [] ≡ before ++ h ∷ (after ++ m ∷ [])
snoc before after h m = append_assoc before (h ∷ after) (m ∷ [])

IsHighest-step :
    (h m : TrendMonth) (seen : List TrendMonth)
    → IsHighest h seen
    → IsHighest (if ltb h.total m.total then m else h) (seen ++ m ∷ [])
IsHighest-step h m seen v =
    if_cases (ltb h.total m.total) (λ x. IsHighest x (seen ++ m ∷ []))
      (λ more.
        let lt : h.total < m.total = ltb→lt h.total m.total more in
        record {
          before = seen;
          after = [];
          there = refl;
          above = subst (All (λ x. x.total < m.total)) (sym v.there) (
              All-append (λ x. x.total < m.total) v.before (h ∷ v.after)
                (All-weaken h m v.before lt (All-lt-le h v.before v.above))
                (lt, All-weaken h m v.after lt v.not_below));
          not_below = tt;
        })
      (λ less. record {
        before = v.before;
        after = v.after ++ m ∷ [];
        there = ap (λ xs. xs ++ m ∷ []) v.there ∙ snoc v.before v.after h m;
        above = v.above;
        not_below =
            All-append (λ x. x.total ≤ h.total) v.after (m ∷ []) v.not_below (ground arith, tt);
      })

highest_from-IsHighest :
    (h : TrendMonth) (ms seen : List TrendMonth)
    → IsHighest h seen
    → IsHighest (highest_from h ms) (seen ++ ms)
unfolding highest_from
highest_from-IsHighest h [] seen v = subst (IsHighest h) (sym (append-nil seen)) v
highest_from-IsHighest h (m ∷ ms) seen v =
    subst (IsHighest (highest_from (if ltb h.total m.total then m else h) ms))
      (append_assoc seen (m ∷ []) ms)
      (highest_from-IsHighest (if ltb h.total m.total then m else h) ms (seen ++ m ∷ [])
        (IsHighest-step h m seen v))

-- `l` is a month that counts, below every one before it that counts and not above any after it.
pub record IsLowest (current : String) (l : TrendMonth) (months : List TrendMonth) : Type 0 where
  pub before : List TrendMonth
  pub after : List TrendMonth
  pub there : months ≡ before ++ l ∷ after
  pub counts : is_skipped current l ≡ false
  pub below : All (λ m. (is_skipped current m ≡ true) ⊎ (l.total < m.total)) before
  pub not_above : All (λ m. (is_skipped current m ≡ true) ⊎ (l.total ≤ m.total)) after

abbrev pub Lowest : String → Option TrendMonth → List TrendMonth → Type 0
Lowest current none months = All (λ m. is_skipped current m ≡ true) months
Lowest current (some l) months = IsLowest current l months

module _ (current : String) where
  IsLowest-keep :
      (l m : TrendMonth) (seen : List TrendMonth)
      → (is_skipped current m ≡ true) ⊎ (l.total ≤ m.total)
      → IsLowest current l seen
      → IsLowest current l (seen ++ m ∷ [])
  IsLowest-keep l m seen fine v = record {
    before = v.before;
    after = v.after ++ m ∷ [];
    there = ap (λ xs. xs ++ m ∷ []) v.there ∙ snoc v.before v.after l m;
    counts = v.counts;
    below = v.below;
    not_above =
        All-append (λ x. (is_skipped current x ≡ true) ⊎ (l.total ≤ x.total)) v.after (m ∷ [])
          v.not_above (fine, tt);
  }

  IsLowest-new :
      (m : TrendMonth) (seen : List TrendMonth)
      → is_skipped current m ≡ false
      → All (λ x. (is_skipped current x ≡ true) ⊎ (m.total < x.total)) seen
      → IsLowest current m (seen ++ m ∷ [])
  IsLowest-new m seen c a = record {
    before = seen;
    after = [];
    there = refl;
    counts = c;
    below = a;
    not_above = tt;
  }

  below-All :
      (l m : TrendMonth) (seen : List TrendMonth)
      → m.total < l.total
      → IsLowest current l seen
      → All (λ x. (is_skipped current x ≡ true) ⊎ (m.total < x.total)) seen
  below-All l m seen lt v =
      subst (All (λ x. (is_skipped current x ≡ true) ⊎ (m.total < x.total))) (sym v.there) (
        All-append (λ x. (is_skipped current x ≡ true) ⊎ (m.total < x.total)) v.before (l ∷ v.after)
          (All-map (λ x. (is_skipped current x ≡ true) ⊎ (l.total < x.total))
            (λ x. (is_skipped current x ≡ true) ⊎ (m.total < x.total))
            (λ x h. ground (arith, h, lt)) v.before v.below)
          (
            inr lt,
            All-map (λ x. (is_skipped current x ≡ true) ⊎ (l.total ≤ x.total))
                (λ x. (is_skipped current x ≡ true) ⊎ (m.total < x.total))
                (λ x h. ground (arith, h, lt)) v.after v.not_above,
          ))

  Lowest-step :
      (o : Option TrendMonth) (m : TrendMonth) (seen : List TrendMonth)
      → Lowest current o seen
      → Lowest current (if is_skipped current m then o else some (lower o m)) (seen ++ m ∷ [])
  Lowest-step none m seen v =
      if_cases (is_skipped current m) (λ o. Lowest current o (seen ++ m ∷ []))
        (λ skip. All-append (λ x. is_skipped current x ≡ true) seen (m ∷ []) v (skip, tt))
        (λ counts. IsLowest-new m seen counts (
          All-map (λ x. is_skipped current x ≡ true)
            (λ x. (is_skipped current x ≡ true) ⊎ (m.total < x.total)) (λ x h. inl h) seen v))
  Lowest-step (some l) m seen v =
      if_cases (is_skipped current m) (λ o. Lowest current o (seen ++ m ∷ []))
        (λ skip. IsLowest-keep l m seen (inl skip) v)
        (λ counts.
          if_cases (ltb m.total l.total) (λ x. IsLowest current x (seen ++ m ∷ []))
            (λ less.
              IsLowest-new m seen counts (below-All l m seen (ltb→lt m.total l.total less) v))
            (λ more. IsLowest-keep l m seen (inr (ground arith)) v))

  lowest_from-Lowest :
      (o : Option TrendMonth) (ms seen : List TrendMonth)
      → Lowest current o seen
      → Lowest current (lowest_from current o ms) (seen ++ ms)
  unfolding lowest_from
  lowest_from-Lowest o [] seen v = subst (Lowest current o) (sym (append-nil seen)) v
  lowest_from-Lowest o (m ∷ ms) seen v =
      subst
        (Lowest current
          (lowest_from current (if is_skipped current m then o else some (lower o m)) ms))
        (append_assoc seen (m ∷ []) ms)
        (lowest_from-Lowest (if is_skipped current m then o else some (lower o m)) ms
          (seen ++ m ∷ []) (Lowest-step o m seen v))

abbrev pub Highest : Option TrendMonth → List TrendMonth → Type 0
Highest none months = months ≡ []
Highest (some h) months = IsHighest h months

-- The highlights of a trend: Highest is the first of the months with the largest total, none only
-- without months; Lowest is the first with the smallest total of the months that had spending and
-- are over, none exactly if there is no such month.
build_trend_highlights-Lowest :
    (months : List TrendMonth) (change : Option Percent) (current : String) (halves : Bool)
    → let h = build_trend_highlights months change current halves in
      Highest h.highest months × Lowest current h.lowest months
unfolding build_trend_highlights
build_trend_highlights-Lowest [] change current halves = (refl, tt)
build_trend_highlights-Lowest (m ∷ ms) change current halves = (
  unfold highest_from in
      subst (λ x. IsHighest (highest_from x ms) (m ∷ ms))
        (if_cases (ltb m.total m.total) (λ x. m ≡ x) (λ more. refl) (λ less. refl))
        (highest_from-IsHighest m ms (m ∷ [])
          (record { before = []; after = []; there = refl; above = tt; not_below = tt })),
  lowest_from-Lowest current none (m ∷ ms) [] tt,
)

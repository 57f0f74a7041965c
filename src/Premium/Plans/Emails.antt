-- ===== src/Premium/Plans/Emails.antt =====
-- The test of an email address is its pattern.
use grocery_genie.Base.{
  nat_eq, string_eq, trim, ℕ, String, ◌≡◌, refl, sym, ap, ◌∙◌, ◌↔◌, ◌⊎◌, inl, inr, Bool, true,
  false, not, ◌&&◌, List, [], ◌∷◌, ◌++◌, arith, ◌==◌, ==_iff, Bool-cases,
}
use grocery_genie.Base.Text.{is_space}
use grocery_genie.Errors.Search.{codes}
use grocery_genie.Premium.Plans.{
  plain, all_plain, is_nil, dot_inside, dotted, matches_email, is_plausible_email,
}

-- Something, an "@", something, a dot and something, where none of the three has white space or an
-- "@".
pub record IsEmail (text : List ℕ) : Type 0 where
  pub name : List ℕ
  pub host : List ℕ
  pub ending : List ℕ
  pub parts : text ≡ name ++ b'@' ∷ (host ++ b'.' ∷ ending)
  pub name_plain : (is_nil name ≡ false) × (all_plain name ≡ true)
  pub host_plain : (is_nil host ≡ false) × (all_plain host ≡ true)
  pub ending_plain : (is_nil ending ≡ false) × (all_plain ending ≡ true)

dot_plain : plain b'.' ≡ true
unfolding plain
dot_plain = refl

neither-right : (a b : Bool) → (not a && not b) ≡ true → b ≡ false
neither-right a b h = ground (arith, h)

plain-apart : (c : ℕ) → plain c ≡ true → (c == b'@') ≡ false
unfolding plain
plain-apart c h = neither-right (is_space c) (c == b'@') h

all_plain-append : (xs ys : List ℕ) → all_plain (xs ++ ys) ≡ (all_plain xs && all_plain ys)
all_plain-append [] ys = refl
all_plain-append (x ∷ xs) ys = ground (arith, all_plain-append xs ys)

-- A dot with something after it, written out.
abbrev HasDot : List ℕ → Type 0
HasDot cs =
    (pre : List ℕ) × (ending : List ℕ) × (cs ≡ pre ++ b'.' ∷ ending) × (is_nil ending ≡ false)

dot_inside-HasDot : (cs : List ℕ) → dot_inside cs ≡ true → HasDot cs
dot_inside-HasDot [] h = absurd (ground (arith, h))
dot_inside-HasDot (c ∷ cs) h = elim (Bool-cases (c == b'.' && not (is_nil cs))) [
  | inl here ↦
      ([], cs, ap (λ d. d ∷ cs) ((==_iff c b'.').0 (ground (arith, here))), ground (arith, here))
  | inr not_here ↦
      let (pre, ending, parts, some_ending) = dot_inside-HasDot cs (ground (arith, h, not_here)) in
      (c ∷ pre, ending, ap (λ ds. c ∷ ds) parts, some_ending)
]

HasDot-dot_inside :
    (pre ending : List ℕ) → is_nil ending ≡ false → dot_inside (pre ++ b'.' ∷ ending) ≡ true
HasDot-dot_inside [] ending h = ground (arith, h)
HasDot-dot_inside (c ∷ pre) ending h = ground (arith, HasDot-dot_inside pre ending h)

-- The rest of an address, `seen` once something of the name was read.
abbrev Rest : Bool → List ℕ → Type 0
Rest seen text =
    (name : List ℕ) × (host : List ℕ) × (ending : List ℕ) × (text
      ≡ name ++ b'@' ∷ (host ++ b'.' ∷ ending))
    × ((seen ≡ true) ⊎ (is_nil name ≡ false))
    × (all_plain name ≡ true)
    × ((is_nil host ≡ false) × (all_plain host ≡ true))
    × ((is_nil ending ≡ false) × (all_plain ending ≡ true))

domain :
    (cs : List ℕ)
    → all_plain cs ≡ true
    → dotted cs ≡ true
    → (host : List ℕ) × (ending : List ℕ) × (cs ≡ host ++ b'.' ∷ ending)
      × ((is_nil host ≡ false) × (all_plain host ≡ true))
      × ((is_nil ending ≡ false) × (all_plain ending ≡ true))
domain [] p h = absurd (ground (arith, h))
domain (c ∷ cs) p h =
    let (pre, ending, parts, some_ending) = dot_inside-HasDot cs h in
    let plains : (all_plain pre && all_plain (b'.' ∷ ending)) ≡ true =
      sym (all_plain-append pre (b'.' ∷ ending)) ∙ ap all_plain (sym parts) ∙ ground (arith, p) in
    (
      c ∷ pre,
      ending,
      ap (λ ds. c ∷ ds) parts,
      (refl, ground (arith, p, plains)),
      (some_ending, ground (arith, plains)),
    )

matches_email-Rest : (seen : Bool) (text : List ℕ) → matches_email seen text ≡ true → Rest seen text
unfolding matches_email
matches_email-Rest seen [] h = absurd (ground (arith, h))
matches_email-Rest seen (c ∷ cs) h = elim (Bool-cases (c == b'@')) [
  | inl at_sign ↦
      let (host, ending, parts, h1, h2) =
        domain cs (ground (arith, h, at_sign)) (ground (arith, h, at_sign)) in
      (
        [],
        host,
        ending,
        ap (λ d. d ∷ cs) ((==_iff c b'@').0 at_sign) ∙ ap (λ ds. b'@' ∷ ds) parts,
        inl (ground (arith, h, at_sign)),
        refl,
        h1,
        h2,
      )
  | inr other ↦
      let (name, host, ending, parts, some_name, plains, h1, h2) =
        matches_email-Rest true cs (ground (arith, h, other)) in
      (
        c ∷ name,
        host,
        ending,
        ap (λ ds. c ∷ ds) parts,
        inr refl,
        ground (arith, h, other, plains),
        h1,
        h2,
      )
]

domain-dotted :
    (host ending : List ℕ)
    → is_nil host ≡ false
    → is_nil ending ≡ false
    → dotted (host ++ b'.' ∷ ending) ≡ true
domain-dotted [] ending h k = absurd (ground (arith, h))
domain-dotted (c ∷ host) ending h k = HasDot-dot_inside host ending k

Rest-matches_email :
    (seen : Bool) (name host ending : List ℕ)
    → (seen ≡ true) ⊎ (is_nil name ≡ false)
    → all_plain name ≡ true
    → (is_nil host ≡ false) × (all_plain host ≡ true)
    → (is_nil ending ≡ false) × (all_plain ending ≡ true)
    → matches_email seen (name ++ b'@' ∷ (host ++ b'.' ∷ ending)) ≡ true
unfolding matches_email
Rest-matches_email seen [] host ending s p h e = ground (
  arith,
  s,
  h,
  e,
  domain-dotted host ending h.0 e.0,
  dot_plain,
  all_plain-append host (b'.' ∷ ending),
)
Rest-matches_email seen (c ∷ name) host ending s p h e = ground (
  arith,
  p,
  plain-apart c,
  Rest-matches_email true name host ending (inl refl) (ground (arith, p)) h e,
)

-- A text is taken for an email address exactly if, trimmed, it is a name, an "@", a host, a dot and
-- an ending, none of them empty or with white space or an "@".
pub is_plausible_email_iff :
    (value : String) → (is_plausible_email value ≡ true) ↔ IsEmail (codes (trim value))
unfolding is_plausible_email
is_plausible_email_iff value = (
  (λ h.
      let (name, host, ending, parts, some_name, plains, h1, h2) =
        matches_email-Rest false (codes (trim value)) h in
      record {
        name = name;
        host = host;
        ending = ending;
        parts = parts;
        name_plain = (ground (arith, some_name), plains);
        host_plain = h1;
        ending_plain = h2;
      }),
  (λ e. rw e.parts (
      Rest-matches_email false e.name e.host e.ending (inr e.name_plain.0) e.name_plain.1
        e.host_plain e.ending_plain)),
)

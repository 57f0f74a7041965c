-- ===== src/Premium/Tests.antt =====
-- Purchases and addresses on small examples.
use grocery_genie.Base.{
  nat_eq, string_eq, trim, ◌≡◌, refl, ◌↔◌, true, false, none, some, List, [], ◌∷◌,
}
use grocery_genie.Errors.Search.{codes}
use grocery_genie.Premium.Plans.{plain, matches_email, is_plausible_email}
use grocery_genie.Premium.Plans.Emails.{IsEmail, is_plausible_email_iff}
use grocery_genie.Premium.Purchases.{yearly, gave, threw, Package, PremiumPlan, Sdk, Build}
use grocery_genie.Premium.Purchases.Account.{
  Inv, Request, offers, restores, buys, serve_all, unconfigured, serve_all-unconfigured-Inv,
}

abbrev yearly_package : Package
yearly_package = record {
  identifier = "gg.yearly";
  price_string = "$39.99";
  price = 3999;
  currency_code = "USD";
  intro_price =
      some (record { price = 0; period_unit = "WEEK"; period_number_of_units = 1; cycles = 1 });
}

abbrev sdk : Sdk
sdk = record {
  configure = λ u. gave tt;
  log_in = λ u. gave tt;
  get_offerings =
      gave
        (some (record { monthly = none; annual = some yearly_package; available_packages = [] }));
  eligibility = λ ids. gave (λ i. some 2);
  purchase_package = λ p. gave tt;
  restore_purchases = threw (record { user_cancelled = false; message = some "offline" });
}

abbrev build : Build
build = record { api_key = "k"; store_client = false; module_default = some sdk }

abbrev plan : PremiumPlan
plan = record {
  kind = yearly;
  price_string = "$39.99";
  price = 3999;
  currency_code = "USD";
  trial_days = some 7;
  pkg = yearly_package;
}

abbrev two_users : List Request
two_users =
    offers build "ann" ∷ buys build "ann" plan ∷ buys build "bob" plan ∷ restores build "ann" ∷ []

serve_all-unconfigured-Inv_example : Inv (serve_all two_users unconfigured)
serve_all-unconfigured-Inv_example = serve_all-unconfigured-Inv two_users

plausible : is_plausible_email " ann@mail.example.org " ≡ true
unfolding is_plausible_email matches_email trim plain
plausible = refl

is_plausible_email_iff_example :
    (is_plausible_email " ann@example.org" ≡ true) ↔ IsEmail (codes (trim " ann@example.org"))
is_plausible_email_iff_example = is_plausible_email_iff " ann@example.org"

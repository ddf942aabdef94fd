-- ===== src/EnvoyCommon/Asking.antt =====
-- envoy_common.py: the reading types that a query finds.
use cactus_runner.Prelude.{
  String, Bool, true, List, [], ◌∷◌, ◌≡◌, subst, arith, str_eq, eq_iff, All, keep,
}
use cactus_runner.Prelude.Int.{ℤ, pos}
use cactus_runner.Exec.{ok}
use cactus_runner.Exec.Returns.{WhenOk, Returns, Returns-pure, Returns-bind, Returns-on_option}
use cactus_runner.Services.{Services, Site, SiteReadingType}
use cactus_runner.EnvoyCommon.{insert_by, sort_by}
use cactus_runner.EnvoyCommon.Readings.{is_type_of, get_csip_aus_site_reading_types_partitioned}

module _ {A : Type 0} (holds : A → Bool) where
  abbrev AllHold : List A → Type 0
  AllHold xs = All (λ x. holds x ≡ true) xs

  keep-AllHold : (xs : List A) → AllHold (keep holds xs)
  keep-AllHold [] = tt
  keep-AllHold (x ∷ xs) = ground (arith, keep-AllHold xs)

  kept : (p : A → Bool) (xs : List A) → AllHold xs → AllHold (keep p xs)
  kept p [] h = tt
  kept p (x ∷ xs) (hx, h) = ground (arith, kept p xs h)

  inserted :
      (key : A → ℤ) (a : A) (xs : List A)
      → holds a ≡ true
      → AllHold xs
      → AllHold (insert_by key a xs)
  unfolding insert_by
  inserted key a [] ha h = (ha, tt)
  inserted key a (x ∷ xs) ha (hx, h) = ground (arith, inserted key a xs ha h)

  sorted : (key : A → ℤ) (xs : List A) → AllHold xs → AllHold (sort_by key xs)
  unfolding sort_by
  sorted key [] h = tt
  sorted key (x ∷ xs) (hx, h) = inserted key x (sort_by key xs) hx (sorted key xs h)

-- A reading type with what is asked for.
pub record IsAsked (uom location kind qualifier : String) (t : SiteReadingType) : Type 0 where
  pub has_uom : t.uom ≡ uom
  pub has_location : t.role_flags ≡ location
  pub has_kind : t.kind ≡ kind
  pub has_qualifier : t.data_qualifier ≡ qualifier

module _ (uom location kind qualifier : String) where
  asked :
      (site : Site) (types : List SiteReadingType)
      → AllHold (is_type_of uom kind qualifier site) types
      → AllHold (λ t. str_eq t.role_flags location) types
      → All (IsAsked uom location kind qualifier) types
  unfolding is_type_of
  asked site [] h g = tt
  asked site (t ∷ types) (ht, h) (gt, g) = (
    record {
      has_uom = (eq_iff t.uom uom).0 (ground (arith, ht));
      has_location = (eq_iff t.role_flags location).0 gt;
      has_kind = (eq_iff t.kind kind).0 (ground (arith, ht));
      has_qualifier = (eq_iff t.data_qualifier qualifier).0 (ground (arith, ht));
    },
    asked site types h g,
  )

  abbrev AreAsked : List SiteReadingType × List SiteReadingType → Type 0
  AreAsked found = All (IsAsked uom location kind qualifier) found.0

  chosen :
      (active : Site) (rows : List SiteReadingType)
      → All (IsAsked uom location kind qualifier) (
          keep
            (λ t. str_eq t.role_flags location)
            (sort_by (λ t. pos t.created_time) (keep (is_type_of uom kind qualifier active) rows)))
  chosen active rows =
      let of_type : SiteReadingType → Bool = is_type_of uom kind qualifier active in
      let types : List SiteReadingType = sort_by (λ t. pos t.created_time) (keep of_type rows) in
      asked active (keep (λ t. str_eq t.role_flags location) types)
        (kept of_type (λ t. str_eq t.role_flags location) types
          (sorted of_type (λ t. pos t.created_time) (keep of_type rows)
            (keep-AllHold of_type rows)))
        (keep-AllHold (λ t. str_eq t.role_flags location) types)

  module _ (S : Services) where
    returned :
        Returns AreAsked (get_csip_aus_site_reading_types_partitioned S uom location kind qualifier)
    unfolding get_csip_aus_site_reading_types_partitioned
    returned = Returns-bind _ _ (λ site.
        Returns-on_option site _ _ (Returns-pure ([], []) tt)
          (λ active. Returns-bind _ _ (λ rows. Returns-pure _ (chosen active rows))))

pub found-IsAsked :
    (S : Services) (uom location kind qualifier : String) (env : S.Env)
    (found : List SiteReadingType × List SiteReadingType)
    → (get_csip_aus_site_reading_types_partitioned S uom location kind qualifier env).0 ≡ ok found
    → All (IsAsked uom location kind qualifier) found.0
found-IsAsked S uom location kind qualifier env found e =
    subst (WhenOk (AreAsked uom location kind qualifier)) e
      ((returned uom location kind qualifier S).each env)

-- ===== src/EnvoyCommon.antt =====
-- envoy_common.py: the queries that the actions share.
pub mod Readings
pub mod Asking
use cactus_runner.Prelude.{
  ℕ, ◌+◌, List, [], ◌∷◌, Option, none, some, leb, keep, length, if◌then◌else◌,
}
use cactus_runner.Prelude.Int.{ℤ, leb_ℤ, eqb_ℤ}
use cactus_runner.Prelude.{Bool, true, false}
use cactus_runner.Exec.{Exec, pure, ◌>>=◌}
use cactus_runner.Services.{Services, Site, SiteControlGroup, SiteControlRow}
use cactus_runner.World.{Run, call}

-- ORDER BY key ASC
module _ {ℓ} {A : Type ℓ} (key : A → ℤ) where
  insert_by : A → List A → List A
  insert_by a [] = a ∷ []
  insert_by a (b ∷ bs) = if leb_ℤ (key a) (key b) then a ∷ b ∷ bs else b ∷ insert_by a bs

  unfoldable pub sort_by : List A → List A
  unfolding insert_by
  sort_by [] = []
  sort_by (a ∷ rest) = insert_by a (sort_by rest)

-- ORDER BY changed_time DESC LIMIT 1
unfoldable pub latest_site : List Site → Option Site
latest_site [] = none
latest_site (s ∷ rest) = elim (latest_site rest) [
  | none ↦ some s
  | some m ↦ if leb m.changed_time s.changed_time then some s else some m
]

of_site : Option ℤ → SiteControlRow → Bool
of_site none row = true
of_site (some site_id) row = eqb_ℤ row.site_id site_id

abbrev pub is_deleted : SiteControlRow → Bool
is_deleted row = elim row.deleted_time [ none ↦ false | some _ ↦ true ]

-- A query of the database that leaves the runner's own state alone.
abbrev pub Query : Services → Type 0 → Type 0
Query S A = Exec S.Env A

module _ (S : Services) where
  unfoldable pub query_active_site : Query S (Option Site)
  query_active_site = do rows ← S.sites; pure (latest_site rows)

  unfoldable pub get_active_site : Run S (Option Site)
  unfolding query_active_site
  get_active_site = call S query_active_site

  unfoldable pub get_all_sites : Run S (List Site)
  get_all_sites = do rows ← call S S.sites; pure (sort_by (λ s. s.site_id) rows)

  unfoldable pub get_all_site_control_groups : Run S (List SiteControlGroup)
  get_all_site_control_groups = do
    rows ← call S S.site_control_groups
    pure (sort_by (λ g. g.site_control_group_id) rows)

  unfoldable pub count_all_site_controls_with_cancelled : Option ℤ → Run S ℕ
  unfolding of_site
  count_all_site_controls_with_cancelled site_id = do
    active ← call S S.dynamic_operating_envelopes
    archived ← call S S.archive_dynamic_operating_envelopes
    pure (
        length (keep (of_site site_id) active)
        + length (keep (of_site site_id) (keep is_deleted archived)))

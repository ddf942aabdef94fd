-- ===== src/EnvoyCommon/Readings.antt =====
-- envoy_common.py: the queries on readings and their types.
use cactus_runner.Prelude.{
  if◌then◌else◌, ℕ, length, ◌==◌, ◌∷◌, String, Bool, not, ◌&&◌, List, [], str_eq, keep,
}
use cactus_runner.Prelude.Int.{pos, eqb_ℤ}
use cactus_runner.Exec.{pure, on_option, ◌>>=◌}
use cactus_runner.Services.{Services, Site, SiteReadingType, SiteReading}
use cactus_runner.EnvoyCommon.{Query, query_active_site, sort_by}

unfoldable pub is_type_of : (uom kind qualifier : String) → Site → SiteReadingType → Bool
is_type_of uom kind qualifier site t =
    eqb_ℤ t.site_id site.site_id
    && str_eq t.uom uom
    && str_eq t.kind kind
    && str_eq t.data_qualifier qualifier

module _ (S : Services) where
  -- The types at the location, and those with other role flags.
  unfoldable pub get_csip_aus_site_reading_types_partitioned :
      (uom location kind qualifier : String) → Query S (List SiteReadingType × List SiteReadingType)
  unfolding is_type_of
  get_csip_aus_site_reading_types_partitioned uom location kind qualifier = do
    site ← query_active_site S
    on_option site (pure ([], [])) (λ active. do
      rows ← S.site_reading_types
      let types =
          sort_by (λ t. pos t.created_time) (keep (is_type_of uom kind qualifier active) rows)
      pure (
        keep (λ t. str_eq t.role_flags location) types,
        keep (λ t. not (str_eq t.role_flags location)) types,
      ))

  unfoldable pub get_csip_aus_site_reading_types :
      (uom location kind qualifier : String) → Query S (List SiteReadingType)
  get_csip_aus_site_reading_types uom location kind qualifier = do
    found ← get_csip_aus_site_reading_types_partitioned uom location kind qualifier
    pure found.0

  -- ORDER BY created_time ASC
  unfoldable pub get_site_readings : SiteReadingType → Query S (List SiteReading)
  get_site_readings t = do
    rows ← S.site_readings
    pure (
        sort_by (λ r. pos r.created_time)
          (keep (λ r. eqb_ℤ r.site_reading_type_id t.site_reading_type_id) rows))

  -- The number of readings of each type that has one, in the order of the types.
  abbrev count_of_type : List SiteReading → SiteReadingType → ℕ
  count_of_type readings t =
      length (keep (λ r. eqb_ℤ r.site_reading_type_id t.site_reading_type_id) readings)

  unfoldable pub grouped : List SiteReading → List SiteReadingType → List (SiteReadingType × ℕ)
  grouped readings [] = []
  grouped readings (t ∷ types) =
      let rest = grouped readings types in
      let count = count_of_type readings t in if count == 0 then rest else (t, count) ∷ rest

  unfoldable pub get_reading_counts_grouped_by_reading_type : Query S (List (SiteReadingType × ℕ))
  unfolding grouped
  get_reading_counts_grouped_by_reading_type = do
    readings ← S.site_readings
    types ← S.site_reading_types
    pure (grouped readings types)

-- ===== src/ReadingChecks.antt =====
-- check.py: the checks on the readings that the client has sent.
pub mod Levels
pub mod Combined
pub mod Passing
use cactus_runner.Prelude.{
  ℕ, zero, suc, ◌+◌, ◌-◌, ◌%◌, String, Bool, true, false, not, ◌&&◌, ◌||◌, List, [], ◌∷◌, ◌++◌,
  Option, none, some, str_eq, concat, keep, map, length, ltb, ◌==◌, if◌then◌else◌,
}
use cactus_runner.Prelude.Int.{ℤ, pos, pos_part, neg_part, leb_ℤ, eqb_ℤ}
use cactus_runner.Prelude.Dict.{Dict}
use cactus_runner.Prelude.Strings
use cactus_runner.Prelude.Strings.{join, texts, drop}
use cactus_runner.Exec.{Result, ok, err, pure, lift, ◌>>=◌}
use cactus_runner.Definitions.{Time, text, Resolved, of_int, is_none}
use cactus_runner.Models.{CheckResult}
use cactus_runner.Services.{Services, SiteReadingType, SiteReading}
use cactus_runner.SoftChecker.{pass, fail, passed_with, merge_checks}
use cactus_runner.EnvoyCommon.{Query}
use cactus_runner.EnvoyCommon.Readings.{
  get_csip_aus_site_reading_types_partitioned, get_site_readings,
}
use cactus_runner.Actions.Params.{as_int, parameter}

-- len(set(…)), over integers
abbrev member : ℤ → List ℤ → Bool
member a [] = false
member a (b ∷ rest) = eqb_ℤ a b || member a rest

abbrev distinct_count : List ℤ → ℕ
distinct_count [] = 0
distinct_count (a ∷ rest) =
    let others = distinct_count rest in if member a rest then others else suc others

abbrev pub total_mups : List SiteReadingType → ℕ
total_mups types = distinct_count (map (λ t. t.group_id) types)

-- count_by_srt_id.get(srt.site_reading_type_id, 0)
unfoldable pub count_of : List SiteReading → SiteReadingType → ℕ
count_of readings t =
    length (keep (λ r. eqb_ℤ r.site_reading_type_id t.site_reading_type_id) readings)

pub record Highest : Type 0 where
  pub found_count : ℕ
  pub found_mrid : String
  pub found_group : ℤ

-- The first of several types with as many readings stays.
abbrev pub better : List SiteReading → Highest → SiteReadingType → Highest
better readings best t =
    if ltb best.found_count (count_of readings t)
    then record { found_count = count_of readings t; found_mrid = t.mrid; found_group = t.group_id }
    else best

-- The scan for the type with the most readings.
unfoldable pub highest_found : List SiteReading → Highest → List SiteReadingType → Highest
highest_found readings best [] = best
highest_found readings best (t ∷ rest) = highest_found readings (better readings best t) rest

abbrev pub nothing_found : Highest
nothing_found = record { found_count = 0; found_mrid = ""; found_group = pos 0 }

-- SiteReading.site_reading_type_id.in_(srt_ids)
unfoldable pub is_of_types : List SiteReadingType → SiteReading → Bool
is_of_types types r = member r.site_reading_type_id (map (λ t. t.site_reading_type_id) types)

-- timestamp_on_minute_boundary(d); the zones are whole minutes from UTC.
unfoldable pub timestamp_on_minute_boundary : Time → Bool
timestamp_on_minute_boundary t = t % 60000000 == 0

-- The readings of no duration, and those of one that is no number of minutes.
pub record Durations : Type 0 where
  pub zero_count : ℕ
  pub non_divisible_count : ℕ

abbrev pub counted : Durations → SiteReading → Durations
counted counts r =
    if eqb_ℤ r.time_period_seconds (pos 0)
    then record counts { zero_count = suc counts.zero_count }
    else if (pos_part r.time_period_seconds + neg_part r.time_period_seconds) % 60 == 0
    then counts
    else record counts { non_divisible_count = suc counts.non_divisible_count }

unfoldable pub count_durations : Durations → List SiteReading → Durations
count_durations counts [] = counts
count_durations counts (r ∷ rest) = count_durations (counted counts r) rest

abbrev part_if : ℕ → String → List String
part_if zero message = []
part_if (suc n) message = message ∷ []

module _ (S : Services) where
  abbrev number : ℕ → String
  number n = S.format (of_int (pos n))

  abbrev has_sufficient_readings :
      List SiteReadingType → List SiteReading → (minimum : ℤ) → Highest → CheckResult
  has_sufficient_readings types readings minimum best =
      if leb_ℤ minimum (pos best.found_count)
      then passed_with (
          texts (
            "MirrorMeterReading "
            ∷ best.found_mrid
            ∷ " at /mup/"
            ∷ S.format (of_int best.found_group)
            ∷ " has "
            ∷ number best.found_count
            ∷ " Readings."
            ∷ []))
      else fail (
          texts (
            "No MirrorMeterReading has sufficient readings. "
            ∷ number (total_mups types)
            ∷ " MirrorUsagePoint(s) and "
            ∷ number (length types)
            ∷ " MirrorMeterReading(s) checked."
            ∷ "Closest was MirrorMeterReading "
            ∷ best.found_mrid
            ∷ " at /mup/"
            ∷ S.format (of_int best.found_group)
            ∷ " with "
            ∷ number best.found_count
            ∷ "/"
            ∷ S.format (of_int minimum)
            ∷ " readings.Total: "
            ∷ number (length readings)
            ∷ " readings were sent of correct uom, role flag, kind, and data qualifier for this test."
            ∷ []))

  -- The result on the readings of these types, for a minimum number of readings.
  unfoldable pub readings_result :
      List SiteReadingType → (minimum : ℤ) → List SiteReading → CheckResult
  readings_result types minimum readings =
      has_sufficient_readings types readings minimum (highest_found readings nothing_found types)

  -- The counts by type are queried only if there are types.
  abbrev readings_of_types : List SiteReadingType → Query S (List SiteReading)
  readings_of_types [] = pure []
  readings_of_types (t ∷ types) = do
    rows ← S.site_readings
    pure (keep (is_of_types (t ∷ types)) rows)

  unfoldable pub do_check_readings_for_types :
      List SiteReadingType → (minimum_count : Resolved) → Query S CheckResult
  do_check_readings_for_types types minimum_count = if is_none minimum_count then pure pass else (do
    readings ← readings_of_types types
    minimum ← lift (as_int minimum_count)
    pure (readings_result types minimum readings))

  abbrev boundaries : List SiteReadingType → (aligned total : ℕ) → List String → String
  boundaries types aligned total end = texts (
      number total
      ∷ " reading(s) align on minute boundaries from "
      ∷ number (total_mups types)
      ∷ " MirrorUsagePoint(s) and "
      ∷ number (length types)
      ∷ " MirrorMeterReading(s)."
      ∷ end)

  unfoldable pub boundary_result : List SiteReadingType → List SiteReading → CheckResult
  unfolding timestamp_on_minute_boundary
  boundary_result types readings =
      let aligned =
        length (keep (λ r. timestamp_on_minute_boundary r.time_period_start) readings) in
      let total = length readings in
      if aligned == total
      then passed_with (texts ("All " ∷ boundaries types aligned total [] ∷ []))
      else fail (
          texts (
            "Only "
            ∷ number aligned
            ∷ "/"
            ∷ boundaries types aligned total (" Seconds and milliseconds fields must be 0." ∷ [])
            ∷ []))

  unfoldable pub do_check_readings_on_minute_boundary : List SiteReadingType → Query S CheckResult
  do_check_readings_on_minute_boundary [] = pure pass
  do_check_readings_on_minute_boundary (t ∷ types) = do
    readings ← readings_of_types (t ∷ types)
    pure (boundary_result (t ∷ types) readings)

  -- int(mrid[-8:]) == pen; a text that is no number does not match.
  unfoldable pub mrid_matches_pen : ℤ → String → Bool
  mrid_matches_pen pen mrid = elim (S.int_of (text (drop (Strings.length mrid - 8) mrid))) [
    | ok n ↦ eqb_ℤ n pen
    | err e ↦ false
  ]

  abbrev mismatch : (count total : ℕ) (kind : String) → List String
  mismatch count total kind = part_if count (
      texts (
        number count
        ∷ "/"
        ∷ number total
        ∷ kind
        ∷ " do not match the supplied PEN. (Ensure decimal encoding)."
        ∷ []))

  abbrev mrids_result : (count groups mrids : ℕ) → CheckResult
  mrids_result count groups mrids =
      if groups + mrids == 0
      then passed_with (
          concat "All MRIDS and group MRIDS for the site readings types match the "
            "supplied Private Enterprise Number (PEN).")
      else fail (join " " (mismatch groups count " group MRIDS" ++ mismatch mrids count " MRIDS"))

  unfoldable pub do_check_reading_type_mrids_match_pen : List SiteReadingType → ℤ → CheckResult
  do_check_reading_type_mrids_match_pen [] pen = pass
  do_check_reading_type_mrids_match_pen (t ∷ rest) pen =
      mrids_result (length (t ∷ rest))
        (length (keep (λ srt. not (mrid_matches_pen pen srt.group_mrid)) (t ∷ rest)))
        (length (keep (λ srt. not (mrid_matches_pen pen srt.mrid)) (t ∷ rest)))

  unfoldable pub durations_result : Durations → CheckResult
  durations_result counts =
      if counts.zero_count + counts.non_divisible_count == 0
      then passed_with "All readings have a valid time_period_seconds set"
      else fail (
          concat
            (join " and " (
              part_if counts.zero_count
                (concat (number counts.zero_count) " readings with zero time_period_seconds")
              ++ part_if counts.non_divisible_count (
                  concat (number counts.non_divisible_count)
                    " readings with time_period_seconds not divisible by 60")))
            " found")

  -- The readings are queried type by type.
  unfoldable pub durations_of : Durations → List SiteReadingType → Query S Durations
  durations_of counts [] = pure counts
  durations_of counts (t ∷ rest) = do
    readings ← get_site_readings S t
    durations_of (count_durations counts readings) rest

  unfoldable pub do_check_readings_for_duration : List SiteReadingType → Query S CheckResult
  unfolding durations_of durations_result
  do_check_readings_for_duration types = do
    counts ← durations_of (record { zero_count = 0; non_divisible_count = 0 }) types
    pure (durations_result counts)

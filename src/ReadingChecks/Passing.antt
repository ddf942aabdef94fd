-- ===== src/ReadingChecks/Passing.antt =====
-- check.py: when the checks on readings pass.
use cactus_runner.Prelude.{
  ◌∙◌, ap, inl, inr, ◌-◌, ℕ, suc, ◌+◌, ◌≤◌, ◌%◌, String, Bool, true, false, not, List, [], ◌∷◌, ◌≡◌,
  ◌≢◌, ◌↔◌, ◌⊎◌, arith, All, length, keep,
}
use cactus_runner.Prelude.Int.{ℤ, pos, negsuc, pos_part, neg_part, eqb_ℤ}
use cactus_runner.Prelude.Dict.{Dict}
use cactus_runner.Exec.{ok, pure, ◌>>=◌}
use cactus_runner.Definitions.{Resolved, text}
use cactus_runner.Prelude.Strings
use cactus_runner.Prelude.Strings.{drop}
use cactus_runner.Exec.Returns.{Result-cases}
use cactus_runner.EnvoyCommon.Asking.{IsAsked, found-IsAsked}
use cactus_runner.Models.{CheckResult}
use cactus_runner.Services.{Services, SiteReadingType, SiteReading}
use cactus_runner.SoftChecker.{merge_checks, any_failing}
use cactus_runner.EnvoyCommon.{Query}
use cactus_runner.EnvoyCommon.Readings.{get_csip_aus_site_reading_types_partitioned}
use cactus_runner.ReadingChecks.{
  Highest, Durations, highest_found, nothing_found, count_of, better, counted, readings_result,
  count_durations, durations_result, mrid_matches_pen, do_check_reading_type_mrids_match_pen,
}
use cactus_runner.ReadingChecks.Combined.{
  check_parts, check_found, do_check_site_readings_and_params, check_readings_voltage,
}

equal : (a b : ℤ) → eqb_ℤ a b ≡ true → a ≡ b
equal (pos a) (pos b) h = ground (arith, h)
equal (negsuc a) (negsuc b) h = ground (arith, h)
equal (pos a) (negsuc b) h = cc
equal (negsuc a) (pos b) h = cc

-- Some type of the list has this many readings.
pub HasReadings : List SiteReading → (minimum : ℕ) → List SiteReadingType → Type 0
HasReadings readings minimum [] = ⊥
HasReadings readings minimum (t ∷ rest) =
    (minimum ≤ count_of readings t) ⊎ HasReadings readings minimum rest

highest_found-HasReadings :
    (readings : List SiteReading) (minimum : ℕ) (best : Highest) (types : List SiteReadingType)
    → (minimum ≤ (highest_found readings best types).found_count)
      ↔ ((minimum ≤ best.found_count) ⊎ HasReadings readings minimum types)
unfolding highest_found HasReadings
highest_found-HasReadings readings minimum best [] = ground arith
highest_found-HasReadings readings minimum best (t ∷ rest) =
    ground (arith, highest_found-HasReadings readings minimum (better readings best t) rest)

-- The period of a reading is a whole number of minutes, and not none.
abbrev pub IsWholeMinutes : SiteReading → Type 0
IsWholeMinutes r =
    (eqb_ℤ r.time_period_seconds (pos 0) ≡ false)
    × ((pos_part r.time_period_seconds + neg_part r.time_period_seconds) % 60 ≡ 0)

count_durations-IsWholeMinutes :
    (counts : Durations) (readings : List SiteReading)
    → ((count_durations counts readings).zero_count
          + (count_durations counts readings).non_divisible_count
        ≡ 0)
      ↔ ((counts.zero_count + counts.non_divisible_count ≡ 0) × All IsWholeMinutes readings)
unfolding count_durations
count_durations-IsWholeMinutes counts [] = ground arith
count_durations-IsWholeMinutes counts (r ∷ rest) =
    ground (arith, count_durations-IsWholeMinutes (counted counts r) rest)

module _ (S : Services) where
  -- For a positive minimum, the check on the number of readings passes exactly if one of the types
  -- has as many.
  pub readings_result-passed :
      (types : List SiteReadingType) (n : ℕ) (readings : List SiteReading)
      → ((readings_result S types (pos (suc n)) readings).passed ≡ true)
        ↔ HasReadings readings (suc n) types
  unfolding readings_result
  readings_result-passed types n readings =
      ground (arith, highest_found-HasReadings readings (suc n) nothing_found types)

  -- The check on durations passes exactly if each reading's period is a whole number of minutes
  -- and not none.
  pub durations_result-passed :
      (readings : List SiteReading)
      → ((durations_result S
            (count_durations (record { zero_count = 0; non_divisible_count = 0 }) readings)).passed
          ≡ true)
        ↔ All IsWholeMinutes readings
  unfolding durations_result
  durations_result-passed readings = ground (
    arith,
    count_durations-IsWholeMinutes (record { zero_count = 0; non_divisible_count = 0 }) readings,
  )

  -- An identifier whose last eight characters are the PEN as a decimal number.
  abbrev pub EndsInPen : ℤ → String → Type 0
  EndsInPen pen mrid = S.int_of (text (drop (Strings.length mrid - 8) mrid)) ≡ ok pen

  abbrev pub IsOfPen : ℤ → SiteReadingType → Type 0
  IsOfPen pen t = EndsInPen pen t.group_mrid × EndsInPen pen t.mrid

  ends_in_pen : (pen : ℤ) (mrid : String) → mrid_matches_pen S pen mrid ≡ true → EndsInPen pen mrid
  unfolding mrid_matches_pen
  ends_in_pen pen mrid h =
      elim (Result-cases (S.int_of (text (drop (Strings.length mrid - 8) mrid)))) [
        | inl (n, e) ↦ e ∙ ap ok (equal n pen (ground (arith, h, e)))
        | inr (x, e) ↦ ground (arith, h, e)
      ]

  none_mismatched :
      (pen : ℤ) (types : List SiteReadingType)
      → length (keep (λ t. not (mrid_matches_pen S pen t.group_mrid)) types)
          + length (keep (λ t. not (mrid_matches_pen S pen t.mrid)) types)
        ≡ 0
      → All (IsOfPen pen) types
  none_mismatched pen [] h = tt
  none_mismatched pen (t ∷ rest) h =
      ground (arith, none_mismatched pen rest, ends_in_pen pen t.group_mrid, ends_in_pen pen t.mrid)

  mrids_passed :
      (pen : ℤ) (t : SiteReadingType) (types : List SiteReadingType)
      → (do_check_reading_type_mrids_match_pen S (t ∷ types) pen).passed ≡ true
      → All (IsOfPen pen) (t ∷ types)
  unfolding do_check_reading_type_mrids_match_pen
  mrids_passed pen t types h = ground (arith, none_mismatched pen (t ∷ types))

  parts_passed :
      (params : Dict Resolved) (pen : ℤ) (durations : Bool) (t : SiteReadingType)
      (types : List SiteReadingType) (env : S.Env) (r : CheckResult)
      → (check_parts S params pen durations (t ∷ types) env).0 ≡ ok r
      → r.passed ≡ true
      → (do_check_reading_type_mrids_match_pen S (t ∷ types) pen).passed ≡ true
  unfolding check_parts merge_checks ◌>>=◌ any_failing
  parts_passed params pen true t types env r h e = ground arith
  parts_passed params pen false t types env r h e = ground arith

  found_passed :
      (params : Dict Resolved) (pen : ℤ) (uom location qualifier : String) (durations : Bool)
      (found : List SiteReadingType × List SiteReadingType) (env : S.Env) (r : CheckResult)
      → (check_found S params pen uom location qualifier durations found env).0 ≡ ok r
      → r.passed ≡ true
      → (found.0 ≢ []) × All (IsOfPen pen) found.0
  unfolding merge_checks any_failing pure
  found_passed params pen uom location qualifier durations ([], []) env r h e = ground arith
  found_passed params pen uom location qualifier durations ([], u ∷ wrong) env r h e = ground arith
  found_passed params pen uom location qualifier durations (t ∷ types, wrong) env r h e =
      ground (arith, mrids_passed pen t types, parts_passed params pen durations t types env r h e)

  -- A check on readings passes only if the query finds reading types; each of them has the unit, the
  -- location, the qualifier and the kind that are asked for, and both of its identifiers end in eight
  -- characters that are the PEN of the test as a decimal number.
  pub do_check_site_readings_and_params-passed :
      (params : Dict Resolved) (pen : ℤ) (uom location qualifier kind : String) (durations : Bool)
      (env : S.Env) (found : List SiteReadingType × List SiteReadingType) (r : CheckResult)
      → (get_csip_aus_site_reading_types_partitioned S uom location kind qualifier env).0 ≡ ok found
      → (do_check_site_readings_and_params S params pen uom location qualifier kind durations env).0
        ≡ ok r
      → r.passed ≡ true
      → (found.0 ≢ [])
        × All (IsAsked uom location kind qualifier) found.0
        × All (IsOfPen pen) found.0
  unfolding do_check_site_readings_and_params ◌>>=◌
  do_check_site_readings_and_params-passed params pen uom location qualifier kind durations env
        found r q h e =
      ground (
        arith,
        found-IsAsked S uom location kind qualifier env found q,
        found_passed params pen uom location qualifier durations found
            (get_csip_aus_site_reading_types_partitioned S uom location kind qualifier env).1 r,
      )

  abbrev pub voltage_at : Dict Resolved → ℤ → (location : String) → Query S CheckResult
  voltage_at params pen location =
      do_check_site_readings_and_params S params pen "VOLTAGE" location "AVERAGE" "POWER" true

  -- Where the check on voltage passes, its result is that of the check at the site, or that of the
  -- check at the device, which is made after the one at the site has failed.
  pub check_readings_voltage-passed :
      (params : Dict Resolved) (pen : ℤ) (env : S.Env) (r : CheckResult)
      → (check_readings_voltage S params pen env).0 ≡ ok r
      → r.passed ≡ true
      → ((voltage_at params pen "SITE_READING" env).0 ≡ ok r)
        ⊎ ((voltage_at params pen "DEVICE_READING" (voltage_at params pen "SITE_READING" env).1).0
            ≡ ok r)
  unfolding check_readings_voltage merge_checks any_failing ◌>>=◌
  check_readings_voltage-passed params pen env r h e = ground arith

-- ===== src/ReadingChecks/Levels.antt =====
-- check.py: the checks on the level of the readings, of the latest ones or over a window.
use cactus_runner.Prelude.{
  String, Bool, true, false, not, ◌&&◌, ◌||◌, max, List, [], ◌∷◌, ◌++◌, Option, none, some, keep,
  if◌then◌else◌,
}
use cactus_runner.Prelude.Int.{ℤ, pos, sub_ℕ, scale_ℤ, plus_ℕ, leb_ℤ, eqb_ℤ}
use cactus_runner.Prelude.Dict.{Dict}
use cactus_runner.Prelude.Strings.{join, texts}
use cactus_runner.Exec.{external, type_error, Result, ok, err, pure, lift, on_option, ◌>>=◌}
use cactus_runner.Definitions.{
  Time, Value, int, OperationType, lt, gt, multiply, Resolved, scalar, items, is_none, is_truthy,
  null, truthy,
}
use cactus_runner.Models.{CheckResult}
use cactus_runner.Services.{Services, SiteReadingType, SiteReading}
use cactus_runner.SoftChecker.{pass, fail}
use cactus_runner.EnvoyCommon.{Query}
use cactus_runner.Actions.Params.{as_int, parameter}

-- A reading with its type, as the join of the two tables has it.
abbrev pub Joined : Type 0
Joined = SiteReading × SiteReadingType

abbrev readings_of : SiteReadingType → List SiteReading → List Joined
readings_of t [] = []
readings_of t (r ∷ rest) =
    let others = readings_of t rest in
    if eqb_ℤ r.site_reading_type_id t.site_reading_type_id then (r, t) ∷ others else others

-- SiteReading joined with SiteReadingType
unfoldable pub joined : List SiteReading → List SiteReadingType → List Joined
joined readings [] = []
joined readings (t ∷ types) = readings_of t readings ++ joined readings types

-- time_period_start + time_period_seconds * interval '1 second'
abbrev pub end_time : SiteReading → ℤ
end_time r = plus_ℕ (scale_ℤ 1000000 r.time_period_seconds) r.time_period_start

-- row_number() OVER (… ORDER BY end DESC) = 1, within one type
abbrev latest_reading : List Joined → Option Joined
latest_reading [] = none
latest_reading (r ∷ rest) = elim (latest_reading rest) [
  | none ↦ some r
  | some s ↦ if leb_ℤ (end_time s.0) (end_time r.0) then some r else some s
]

abbrev attach_some : Option Joined → List Joined → List Joined
attach_some none rest = rest
attach_some (some r) rest = r ∷ rest

-- The latest reading of each type that has one.
unfoldable pub latest_readings : List SiteReading → List SiteReadingType → List Joined
latest_readings readings [] = []
latest_readings readings (t ∷ types) =
    attach_some (latest_reading (readings_of t readings)) (latest_readings readings types)

module _ (S : Services) where
  -- sr.value * 10**srt.power_of_ten_multiplier
  abbrev value_of : Joined → Result Value
  value_of (r, t) =
      elim (S.operator multiply (int r.value) (S.power_of_ten t.power_of_ten_multiplier)) [
        | none ↦ err external
        | some v ↦ ok v
      ]

  abbrev cons_ok : Result Value → Result (List Value) → Result (List Value)
  cons_ok (ok v) (ok vs) = ok (v ∷ vs)
  cons_ok (ok v) (err e) = err e
  cons_ok (err e) _ = err e

  unfoldable pub values_of : List Joined → Result (List Value)
  values_of [] = ok []
  values_of (r ∷ rest) = cons_ok (value_of r) (values_of rest)

  abbrev holds : Option Value → Result Bool → Result Bool
  holds none rest = err type_error
  holds (some v) rest = if truthy v then ok true else rest

  -- any(v < limit for v in values), and the same for >
  unfoldable pub any_beyond : OperationType → Value → List Value → Result Bool
  unfolding truthy
  any_beyond operation limit [] = ok false
  any_beyond operation limit (v ∷ rest) =
      holds (S.operator operation v limit) (any_beyond operation limit rest)

  unfoldable pub is_beyond : OperationType → Resolved → List Value → Result Bool
  unfolding any_beyond
  is_beyond operation (scalar null) values = ok false
  is_beyond operation (scalar limit) values = any_beyond operation limit values
  is_beyond operation (items _) [] = ok false
  is_beyond operation (items _) (_ ∷ _) = err type_error

  abbrev part_when : Bool → String → Resolved → List String
  part_when b message level = if b then texts (message ∷ S.format level ∷ "." ∷ []) ∷ [] else []

  abbrev failure_parts : (min_level max_level : Resolved) → (low high : Bool) → List String
  failure_parts min_level max_level low high =
      part_when low "Not all readings above minimum target level of " min_level
      ++ part_when high "Not all readings below maximum target level of " max_level

  -- Both limits are inclusive.
  unfoldable pub levels_result :
      (min_level max_level : Resolved) (ending : String) → List Value → Result CheckResult
  levels_result min_level max_level ending values = elim (is_beyond lt min_level values) [
    | err e ↦ err e
    | ok low ↦ elim (is_beyond gt max_level values) [
      | err e ↦ err e
      | ok high ↦ ok (
          if low || high
          then fail (
              texts (
                join " " (failure_parts min_level max_level low high)
                ∷ " Got "
                ∷ S.format (items values)
                ∷ ending
                ∷ []))
          else pass)
    ]
  ]

  abbrev compared :
      (min_level max_level : Resolved) (ending : String) → List Joined → Query S CheckResult
  compared min_level max_level ending [] = pure (fail "No readings found for level comparison")
  compared min_level max_level ending (r ∷ rest) = do
    values ← lift (values_of (r ∷ rest))
    lift (levels_result min_level max_level ending values)

  unfoldable pub do_check_single_level :
      List SiteReadingType → (min_level max_level : Resolved) → Query S CheckResult
  unfolding latest_readings levels_result
  do_check_single_level types min_level max_level = do
    readings ← S.site_readings
    compared min_level max_level "." (latest_readings readings types)

  -- max(created_time)
  abbrev latest_created : List Joined → Option Time
  latest_created [] = none
  latest_created (r ∷ rest) = elim (latest_created rest) [
    | none ↦ some r.0.created_time
    | some t ↦ some (max r.0.created_time t)
  ]

  -- The reading's period lies within the window before the latest creation.
  unfoldable pub in_window : (latest : Time) (window : ℤ) → Joined → Bool
  in_window latest window r =
      leb_ℤ (sub_ℕ latest r.0.time_period_start) window && leb_ℤ (end_time r.0) (pos latest)

  unfoldable pub do_check_levels_for_period :
      List SiteReadingType → (min_level max_level : Resolved) (window : ℤ) → Query S CheckResult
  unfolding joined in_window levels_result
  do_check_levels_for_period types min_level max_level window = do
    rows ← S.site_readings
    on_option (latest_created (joined rows types))
        (pure (fail "No readings found for level comparison"))
        (λ latest. do
          readings ← S.site_readings
          compared min_level max_level
              (texts ("; for window size " ∷ S.total_seconds window ∷ "s." ∷ []))
              (keep (in_window latest window) (joined readings types)))

  unfoldable pub do_check_reading_levels_for_types :
      List SiteReadingType → Dict Resolved → Query S CheckResult
  unfolding do_check_single_level do_check_levels_for_period
  do_check_reading_levels_for_types types params =
      let max_level = parameter "maximum_level" params in
      let min_level = parameter "minimum_level" params in
      let window_seconds = parameter "window_seconds" params in
      if is_none max_level && is_none min_level && is_none window_seconds
      then pure pass
      else if not (is_truthy window_seconds)
      then do_check_single_level types min_level max_level
      else (do
        seconds ← lift (as_int window_seconds)
        do_check_levels_for_period types min_level max_level (scale_ℤ 1000000 seconds))

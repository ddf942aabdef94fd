-- ===== src/Timeline/Streams.antt =====
-- timeline.py: the data streams of a timeline, of the readings, the controls and the defaults.
use cactus_runner.Prelude.{
  ℕ, ◌+◌, ◌*◌, String, Bool, true, false, List, [], ◌∷◌, ◌++◌, Option, none, some, map, keep,
}
use cactus_runner.Prelude.Int.{ℤ, pos, plus_ℤ, pos_part, leb_ℤ}
use cactus_runner.Prelude.Strings.{texts}
use cactus_runner.Exec.{external, Result, ok, err, pure, lift, ◌>>=◌}
use cactus_runner.Definitions.{Time, of_int}
use cactus_runner.Services.{Services, Limits, SiteReadingType, SiteReading, SiteControlRow}
use cactus_runner.EnvoyCommon.{Query}
use cactus_runner.EnvoyCommon.Readings.{get_csip_aus_site_reading_types, get_site_readings}
use cactus_runner.Timeline.{
  TimelineDataStream, Timeline, Entity, Interval, IntervalTrees, Fetcher, decimal_to_watts,
  generate_offset_watt_values, reading_to_watts, returning,
}
use cactus_runner.Timeline.Controls.{
  get_site_controls_active_archived, get_site_control_group_defaults_with_archive, group_ids,
  group_intervals, default_interval,
}

-- A reading is no row of an archive.
abbrev reading : SiteReading → Entity SiteReading
reading r = record { row = r; changed_time = r.changed_time; archive = none }

abbrev is_timed : SiteReading → Bool
is_timed r = leb_ℤ (pos 1) r.time_period_seconds

unfoldable pub reading_interval : SiteReading → Interval SiteReading
reading_interval r = record {
  begin = r.time_period_start;
  end = r.time_period_start + pos_part r.time_period_seconds * 1000000;
  entity = reading r;
}

-- The sum over the phases; None only if no phase has a value.
abbrev plus : Option ℤ → Option ℤ → Option ℤ
plus none b = b
plus (some a) none = some a
plus (some a) (some b) = some (plus_ℤ a b)

abbrev zip_plus : List (Option ℤ) → List (Option ℤ) → List (Option ℤ)
zip_plus (a ∷ more) (b ∷ others) = plus a b ∷ zip_plus more others
zip_plus _ _ = []

-- zip(*per_srt_values, strict=False), each summed
unfoldable pub sum_phases : List (Option ℤ) → List (List (Option ℤ)) → List (Option ℤ)
sum_phases first [] = first
sum_phases first (next ∷ rest) = zip_plus first (sum_phases next rest)

abbrev first_column : List (List (Option ℤ)) → List (Option ℤ)
first_column [] = []
first_column (column ∷ rest) = column

-- any(v is not None for v in ds.offset_watt_values)
unfoldable pub has_value : List (Option ℤ) → Bool
has_value [] = false
has_value (none ∷ rest) = has_value rest
has_value (some v ∷ rest) = true

-- The stream at each of the five fetchers.
abbrev streams_of :
    (label : String) (dashed : Bool)
    → List String
    → List (List (Option ℤ))
    → List TimelineDataStream
streams_of label dashed (mode ∷ modes) (column ∷ columns) =
    record {
      label = texts (label ∷ " " ∷ mode ∷ []);
      offset_watt_values = column;
      stepped = true;
      dashed = dashed;
    }
    ∷ streams_of label dashed modes columns
streams_of label dashed _ _ = []

abbrev modes : List String
modes =
    "opModImpLimW" ∷ "opModExpLimW" ∷ "opModLoadLimW" ∷ "opModGenLimW" ∷ "opModStorageTargetW" ∷ []

abbrev limit_readers : {A : Type 0} → (A → Limits) → List (Entity A → Option ℤ)
limit_readers limits =
    (λ e. decimal_to_watts (limits e.row).import_limit false)
    ∷ (λ e. decimal_to_watts (limits e.row).export_limit true)
    ∷ (λ e. decimal_to_watts (limits e.row).load_limit false)
    ∷ (λ e. decimal_to_watts (limits e.row).generation_limit true)
    ∷ (λ e. decimal_to_watts (limits e.row).storage_target true)
    ∷ []

module _ (S : Services) (T : IntervalTrees) (start end : Time) (interval_seconds : ℕ) where
  -- The values of the fetchers over a tree of these intervals. An interval of 0 seconds, at which the
  -- code does not return, is an exception here.
  abbrev ended : {A : Type 0} → Option (Result A) → Result A
  ended none = err external
  ended (some result) = result

  unfoldable pub watt_values :
      {A : Type 0} → List (Interval A) → List (Fetcher A) → Query S (List (List (Option ℤ)))
  unfolding generate_offset_watt_values
  watt_values intervals fetchers = do
    tree ← lift (T.build intervals)
    lift (ended (generate_offset_watt_values T.slice tree start end interval_seconds fetchers))

  abbrev reading_fetcher : SiteReadingType → Fetcher SiteReading
  reading_fetcher srt e = elim (reading_to_watts S (srt ∷ []) e.row) [
    | ok watts ↦ ok (some watts)
    | err x ↦ err x
  ]

  -- The values of each reading type, by its own tree.
  unfoldable pub per_srt_values : List SiteReadingType → Query S (List (List (Option ℤ)))
  unfolding watt_values reading_to_watts
  per_srt_values [] = pure []
  per_srt_values (srt ∷ srts) = do
    readings ← get_site_readings S srt
    values ← watt_values (map reading_interval (keep is_timed readings)) (reading_fetcher srt ∷ [])
    rest ← per_srt_values srts
    pure (first_column values ∷ rest)

  abbrev summed : List (List (Option ℤ)) → Query S (List (Option ℤ))
  summed [] = do
    values ← watt_values {A = SiteReading} [] (returning (λ e. none) ∷ [])
    pure (first_column values)
  summed (column ∷ columns) = pure (sum_phases column columns)

  unfoldable pub generate_readings_data_stream :
      (label location : String) → Query S TimelineDataStream
  unfolding per_srt_values sum_phases
  generate_readings_data_stream label location = do
    srts ← get_csip_aus_site_reading_types S "REAL_POWER_WATT" location "POWER" "AVERAGE"
    columns ← per_srt_values srts
    values ← summed columns
    pure (record { label = label; offset_watt_values = values; stepped = false; dashed = false })

  abbrev limit_streams :
      {A : Type 0}
      → (label : String) (dashed : Bool) → (A → Limits)
      → List (Interval A)
      → Query S (List TimelineDataStream)
  limit_streams label dashed limits [] = pure []
  limit_streams label dashed limits (i ∷ intervals) = do
    values ← watt_values (i ∷ intervals) (map returning (limit_readers limits))
    pure (streams_of label dashed modes values)

  unfoldable pub group_streams :
      List (Entity SiteControlRow) → List ℤ → Query S (List TimelineDataStream)
  unfolding watt_values group_intervals
  group_streams controls [] = pure []
  group_streams controls (group ∷ groups) = do
    streams ←
        limit_streams (texts ("/derp/" ∷ S.format (of_int group) ∷ [])) false (λ c. c.limits)
          (group_intervals group controls)
    rest ← group_streams controls groups
    pure (streams ++ rest)

  unfoldable pub generate_control_data_streams : Query S (List TimelineDataStream)
  unfolding group_streams group_ids
  generate_control_data_streams = do
    controls ← get_site_controls_active_archived S
    group_streams controls (group_ids controls)

  unfoldable pub generate_default_control_data_streams : Query S (List TimelineDataStream)
  unfolding watt_values default_interval
  generate_default_control_data_streams = do
    defaults ← get_site_control_group_defaults_with_archive S
    limit_streams "Default" true (λ d. d.limits) (map default_interval defaults)

  abbrev is_populated : TimelineDataStream → Bool
  is_populated stream = has_value stream.offset_watt_values

  -- The timeline up to an end, with the streams that have a value.
  unfoldable pub timeline_until : Query S Timeline
  unfolding has_value
  timeline_until = do
    site_readings ← generate_readings_data_stream "Site Power" "SITE_READING"
    device_readings ← generate_readings_data_stream "Device Power" "DEVICE_READING"
    controls ← generate_control_data_streams
    defaults ← generate_default_control_data_streams
    pure (record {
      start = start;
      interval_seconds = interval_seconds;
      data_streams = keep is_populated (site_readings ∷ device_readings ∷ controls ++ defaults);
    })

module _ (S : Services) (T : IntervalTrees) where
  -- datetime.now()
  abbrev end_or_now : Option Time → Query S Time
  end_or_now none env = let (now, after) = S.clock env in (ok now, after)
  end_or_now (some end) env = (ok end, env)

  unfoldable pub generate_timeline :
      (start : Time) (interval_seconds : ℕ) (end : Option Time) → Query S Timeline
  unfolding timeline_until
  generate_timeline start interval_seconds end = do
    until ← end_or_now end
    timeline_until S T start until interval_seconds

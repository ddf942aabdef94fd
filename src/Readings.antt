-- ===== src/Readings.antt =====
-- readings.py: the readings of the mandatory kinds, scaled, and merged over the reading types of one
-- quantity.
pub mod Grouping
pub mod Members
pub mod Merging
use cactus_runner.Prelude.{
  String, Bool, ◌&&◌, List, [], ◌∷◌, ◌++◌, Option, none, some, str_eq, map, if◌then◌else◌,
}
use cactus_runner.Prelude.Int.{eqb_ℤ}
use cactus_runner.Exec.{Result, ok, err, key_error, value_error, pure, lift, ◌>>=◌}
use cactus_runner.Definitions.{Value}
use cactus_runner.Services.{Services, SiteReadingType, SiteReading}
use cactus_runner.EnvoyCommon.{Query}
use cactus_runner.EnvoyCommon.Readings.{get_csip_aus_site_reading_types, get_site_readings}

pub record ReadingSpecifier : Type 0 where
  pub uom : String
  pub location : String
  pub kind : String
  pub qualifier : String

abbrev average_power : (uom location : String) → ReadingSpecifier
average_power uom location = record {
  uom = uom;
  location = location;
  kind = "POWER";
  qualifier = "AVERAGE";
}

abbrev pub mandatory_reading_specifiers : List ReadingSpecifier
mandatory_reading_specifiers =
    average_power "VOLTAGE" "SITE_READING"
    ∷ average_power "REAL_POWER_WATT" "SITE_READING"
    ∷ average_power "REACTIVE_POWER_VAR" "SITE_READING"
    ∷ average_power "VOLTAGE" "DEVICE_READING"
    ∷ average_power "REAL_POWER_WATT" "DEVICE_READING"
    ∷ average_power "REACTIVE_POWER_VAR" "DEVICE_READING"
    ∷ record {
      uom = "REAL_ENERGY_WATT_HOURS";
      location = "DEVICE_READING";
      kind = "ENERGY";
      qualifier = "NOT_APPLICABLE";
    }
    ∷ []

unfoldable pub reading_types_equivalent : (rt1 rt2 : SiteReadingType) → Bool
reading_types_equivalent rt1 rt2 =
    eqb_ℤ rt1.aggregator_id rt2.aggregator_id
    && eqb_ℤ rt1.site_id rt2.site_id
    && str_eq rt1.uom rt2.uom
    && str_eq rt1.data_qualifier rt2.data_qualifier
    && eqb_ℤ rt1.flow_direction rt2.flow_direction
    && eqb_ℤ rt1.accumulation_behaviour rt2.accumulation_behaviour
    && str_eq rt1.kind rt2.kind
    && eqb_ℤ rt1.phase rt2.phase
    && str_eq rt1.role_flags rt2.role_flags

-- A group is made with its first type, so group[0] is there.
pub record Group : Type 0 where
  pub primary : SiteReadingType
  pub others : List SiteReadingType

abbrev pub members : Group → List SiteReadingType
members group = group.primary ∷ group.others

abbrev pub alone : SiteReadingType → Group
alone t = record { primary = t; others = [] }

abbrev pub joined : SiteReadingType → Group → Group
joined t group = record group { others = group.others ++ (t ∷ []) }

-- The loop over the groups, up to the first that fits.
unfoldable pub add_to_groups : SiteReadingType → List Group → List Group
add_to_groups t [] = alone t ∷ []
add_to_groups t (group ∷ groups) =
    let rest = add_to_groups t groups in
    if reading_types_equivalent t group.primary then joined t group ∷ groups else group ∷ rest

-- The loop over the types that are not processed.
unfoldable pub group_loop : List SiteReadingType → List Group → List Group
group_loop [] groups = groups
group_loop (t ∷ unprocessed) groups = group_loop unprocessed (add_to_groups t groups)

unfoldable pub group_reading_types : List SiteReadingType → List Group
group_reading_types reading_types = group_loop reading_types []

-- A row of a data frame: the columns of a reading, and its scaled value.
pub record ScaledReading : Type 0 where
  pub reading : SiteReading
  pub scaled_value : Value

-- A dictionary over reading types, which are told apart as rows of their table.
abbrev pub Frames : Type 0
Frames = List (SiteReadingType × List ScaledReading)

abbrev pub same_row : (t u : SiteReadingType) → Bool
same_row t u = eqb_ℤ t.site_reading_type_id u.site_reading_type_id

unfoldable pub frame_of : SiteReadingType → Frames → Option (List ScaledReading)
frame_of t [] = none
frame_of t ((u, frame) ∷ rest) =
    let found = frame_of t rest in if same_row t u then some frame else found

unfoldable pub set_frame : SiteReadingType → List ScaledReading → Frames → Frames
set_frame t frame [] = (t, frame) ∷ []
set_frame t frame ((u, old) ∷ rest) =
    let others = set_frame t frame rest in
    if same_row t u then (u, frame) ∷ rest else (u, old) ∷ others

abbrev pub keys : Frames → List SiteReadingType
keys [] = []
keys ((t, frame) ∷ rest) = t ∷ keys rest

-- pd.concat of the frames of a group
unfoldable pub concat_frames : Frames → List SiteReadingType → Result (List ScaledReading)
concat_frames frames [] = ok []
concat_frames frames (t ∷ types) = elim (frame_of t frames) [
  | none ↦ err key_error
  | some frame ↦ elim (concat_frames frames types) [ ok rest ↦ ok (frame ++ rest) | err e ↦ err e ]
]

module _ (S : Services) where
  unfoldable pub scale_readings : SiteReadingType → List SiteReading → Result (List ScaledReading)
  scale_readings reading_type [] = err value_error
  scale_readings reading_type (r ∷ readings) =
      let scale_factor = S.power_of_ten reading_type.power_of_ten_multiplier in
      ok (
        map
          (λ reading. record {
            reading = reading;
            scaled_value = S.times_decimal reading.value scale_factor;
          })
          (r ∷ readings))

  -- The body of the loop over the types of a specifier.
  abbrev pub add_frame : Frames → SiteReadingType → List SiteReading → Result Frames
  add_frame frames t [] = ok frames
  add_frame frames t (r ∷ readings) = elim (scale_readings t (r ∷ readings)) [
    | ok frame ↦ ok (set_frame t frame frames)
    | err e ↦ err e
  ]

  unfoldable pub read_types : Frames → List SiteReadingType → Query S Frames
  unfolding scale_readings
  read_types frames [] = pure frames
  read_types frames (t ∷ types) = do
    reading_data ← get_site_readings S t
    added ← lift (add_frame frames t reading_data)
    read_types added types

  unfoldable pub read_specifiers : Frames → List ReadingSpecifier → Query S Frames
  read_specifiers frames [] = pure frames
  read_specifiers frames (s ∷ specifiers) = do
    reading_types ← get_csip_aus_site_reading_types S s.uom s.location s.kind s.qualifier
    added ← read_types frames reading_types
    read_specifiers added specifiers

  -- The rows of a group, in the order of their periods, under its first type.
  abbrev pub with_merged : Group → Result (List ScaledReading) → Result Frames → Result Frames
  with_merged group (err e) rest = err e
  with_merged group (ok merged) (err e) = err e
  with_merged group (ok merged) (ok rest) =
      ok ((group.primary, S.sort_values (λ row. row.reading.time_period_start) merged) ∷ rest)

  -- The groups have different first types, so each makes an entry of the new dictionary.
  unfoldable pub merge_readings : Frames → List Group → Result Frames
  merge_readings readings [] = ok []
  merge_readings readings (group ∷ groups) =
      with_merged group (concat_frames readings (members group)) (merge_readings readings groups)

  unfoldable pub get_readings : List ReadingSpecifier → Query S Frames
  get_readings reading_specifiers = do
    readings ← read_specifiers [] reading_specifiers
    lift (merge_readings readings (group_reading_types (keys readings)))

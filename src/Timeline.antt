-- ===== src/Timeline.antt =====
-- timeline.py: the power values of a test at regular intervals. The interval trees of the library
-- intervaltree are the parameter `slice`.
pub mod Trees
pub mod Highest
pub mod Values
pub mod Controls
pub mod Streams
use cactus_runner.Prelude.{
  ℕ, zero, suc, ◌+◌, ◌*◌, ◌/◌, ◌%◌, ◌^◌, String, Bool, true, false, not, ◌&&◌, ◌||◌, List, [], ◌∷◌,
  ◌++◌, Option, none, some, map, concat, leb, ltb, ◌==◌, if◌then◌else◌,
}
use cactus_runner.Prelude.Int.{ℤ, pos, negsuc, pos_part, neg_part, sub_ℕ, neg_ℤ, scale_ℤ, eqb_ℤ}
use cactus_runner.Prelude.Strings.{texts}
use cactus_runner.Exec.{value_error, Result, ok, err}
pub use Trees.{ArchiveColumns, Entity, Interval, Slice, IntervalTrees}
use cactus_runner.Definitions.{Time, of_int}
use cactus_runner.Services.{Services, SiteReadingType, SiteReading}

pub record TimelineDataStream : Type 0 where
  pub label : String
  pub offset_watt_values : List (Option ℤ)
  pub stepped : Bool
  pub dashed : Bool

pub record Timeline : Type 0 where
  pub start : Time
  pub interval_seconds : ℕ
  pub data_streams : List TimelineDataStream

-- int(value) of a decimal
unfoldable pub truncated : ℤ × ℤ → ℤ
truncated (coefficient, pos e) = scale_ℤ (10 ^ e) coefficient
truncated (coefficient, negsuc e) =
    sub_ℕ (pos_part coefficient / 10 ^ suc e) (neg_part coefficient / 10 ^ suc e)

unfoldable pub decimal_to_watts : Option (ℤ × ℤ) → (negate : Bool) → Option ℤ
unfolding truncated
decimal_to_watts none negate = none
decimal_to_watts (some value) true = some (neg_ℤ (truncated value))
decimal_to_watts (some value) false = some (truncated value)

abbrev pub Fetcher : Type 0 → Type 0
Fetcher A = Entity A → Result (Option ℤ)

-- A reader of rows that raises nothing.
abbrev pub returning : {A : Type 0} → (Entity A → Option ℤ) → Fetcher A
returning read e = ok (read e)

abbrev is_later : Option Time → Option Time → Bool
is_later (some a) (some b) = ltb b a
is_later _ _ = false

-- The value that each fetcher has for an interval; `zip` pairs them with the lists to append to.
unfoldable pub append_each : List (List (Option ℤ)) → List (Option ℤ) → List (List (Option ℤ))
append_each [] values = []
append_each (column ∷ columns) [] = []
append_each (column ∷ columns) (v ∷ values) = (column ++ v ∷ []) ∷ append_each columns values

abbrev both : Result (Option ℤ) → Result (List (Option ℤ)) → Result (List (Option ℤ))
both (ok v) (ok rest) = ok (v ∷ rest)
both (ok v) (err e) = err e
both (err e) rest = err e

-- timedelta(seconds=interval_seconds)
abbrev pub delta_of : ℕ → Time
delta_of interval_seconds = interval_seconds * 1000000

module _ {A : Type 0} where
  unfoldable pub entity_to_priority : Entity A → ℕ
  entity_to_priority e = elim e.archive [
    | none ↦ 2
    | some columns ↦ elim columns.deleted_time [ none ↦ 3 | some _ ↦ 1 ]
  ]

  abbrev archive_time_of : Entity A → Option Time
  archive_time_of e = elim e.archive [ none ↦ none | some columns ↦ columns.archive_time ]

  -- Whether one entity takes the place of another of the same priority.
  unfoldable pub wins_tiebreak : (current highest : Entity A) → Bool
  unfolding entity_to_priority
  wins_tiebreak current highest =
      if entity_to_priority current == 3
      then is_later (archive_time_of current) (archive_time_of highest)
      else ltb highest.changed_time current.changed_time

  unfoldable pub higher : (current highest : Entity A) → Entity A
  unfolding entity_to_priority wins_tiebreak
  higher current highest =
      if ltb (entity_to_priority highest) (entity_to_priority current)
      then current
      else if ltb (entity_to_priority current) (entity_to_priority highest)
      then highest
      else if wins_tiebreak current highest
      then current
      else highest

  unfoldable pub highest_of : Entity A → List (Interval A) → Entity A
  highest_of highest [] = highest
  highest_of highest (e ∷ rest) = highest_of (higher e.entity highest) rest

  -- The first entity is taken in any case.
  unfoldable pub highest_priority_entity : List (Interval A) → Result (Entity A)
  unfolding highest_of
  highest_priority_entity [] = err value_error
  highest_priority_entity (e ∷ rest) = ok (highest_of e.entity rest)

  unfoldable pub fetch_all : List (Fetcher A) → Entity A → Result (List (Option ℤ))
  fetch_all [] e = ok []
  fetch_all (fetcher ∷ rest) e = both (fetcher e) (fetch_all rest e)

  abbrev pub no_value : Fetcher A → Option ℤ
  no_value fetcher = none

  -- The values of one interval.
  unfoldable pub interval_values : List (Fetcher A) → List (Interval A) → Result (List (Option ℤ))
  unfolding fetch_all highest_priority_entity
  interval_values fetchers [] = ok (map no_value fetchers)
  interval_values fetchers (i ∷ matching) = elim (highest_priority_entity (i ∷ matching)) [
    | err e ↦ err e
    | ok entity ↦ fetch_all fetchers entity
  ]

  -- `while current_interval < end`; `none` is a fuel that is too small.
  unfoldable pub interval_loop :
      (fuel : ℕ)
      → Slice A
      → List (Interval A)
      → (delta current end : Time) → List (Fetcher A)
      → List (List (Option ℤ))
      → Option (Result (List (List (Option ℤ))))
  unfolding append_each interval_values
  interval_loop zero slice tree delta current end fetchers fetched = none
  interval_loop (suc fuel) slice tree delta current end fetchers fetched = elim (ltb current end) [
    | false ↦ some (ok fetched)
    | true ↦ elim (interval_values fetchers (slice tree current (current + delta))) [
      | err e ↦ some (err e)
      | ok values ↦
          interval_loop fuel slice tree delta (current + delta) end fetchers
            (append_each fetched values)
    ]
  ]

  abbrev pub empty_column : Fetcher A → List (Option ℤ)
  empty_column fetcher = []

  -- Each interval of at least a second moves on; with an interval of 0 the loop of the code does not
  -- end.
  unfoldable pub generate_offset_watt_values :
      Slice A
      → List (Interval A)
      → (start end : Time) (interval_seconds : ℕ) → List (Fetcher A)
      → Option (Result (List (List (Option ℤ))))
  unfolding interval_loop
  generate_offset_watt_values slice tree start end interval_seconds fetchers =
      interval_loop (end + 1) slice tree (delta_of interval_seconds) start end fetchers
        (map empty_column fetchers)

module _ (S : Services) where
  abbrev number : ℕ → String
  number n = S.format (of_int (pos n))

  -- How a duration is shown, by its minutes and seconds.
  abbrev minutes_label : (sign : String) (mins seconds : ℕ) → String
  minutes_label sign mins zero = texts (sign ∷ number mins ∷ "m" ∷ [])
  minutes_label sign mins (suc s) = texts (sign ∷ number mins ∷ "m" ∷ number (suc s) ∷ "s" ∷ [])

  abbrev sign_of : ℤ → String
  sign_of (pos n) = ""
  sign_of (negsuc n) = "-"

  unfoldable pub duration_to_label : ℤ → String
  duration_to_label duration_seconds =
      let length = pos_part duration_seconds + neg_part duration_seconds in
      if eqb_ℤ duration_seconds (pos 0)
      then "start"
      else if ltb length 60
      then texts (S.format (of_int duration_seconds) ∷ "s" ∷ [])
      else minutes_label (sign_of duration_seconds) (length / 60) (length % 60)

  -- int(value * pow(10, pow_10)), which goes through a float for a negative power
  unfoldable pub pow10_to_watts : ℤ → ℤ → ℤ
  pow10_to_watts value (pos p) = scale_ℤ (10 ^ p) value
  pow10_to_watts value (negsuc p) = S.scaled_down value (suc p)

  unfoldable pub reading_to_watts : List SiteReadingType → SiteReading → Result ℤ
  unfolding pow10_to_watts
  reading_to_watts [] r = err value_error
  reading_to_watts (srt ∷ rest) r =
      let others = reading_to_watts rest r in
      if eqb_ℤ srt.site_reading_type_id r.site_reading_type_id
      then ok (pow10_to_watts r.value srt.power_of_ten_multiplier)
      else others

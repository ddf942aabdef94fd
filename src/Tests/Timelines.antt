-- ===== src/Tests/Timelines.antt =====
-- Timelines over sample controls.
use cactus_runner.Prelude.{
  ℕ, ◌*◌, ◌&&◌, List, [], ◌∷◌, Option, none, some, ◌≡◌, ◌≢◌, refl, arith, keep, ltb, map,
}
use cactus_runner.Prelude.Int.{ℤ, pos}
use cactus_runner.Exec.{ok}
use cactus_runner.Definitions.{Time}
use cactus_runner.Timeline.{
  Entity, Interval, Slice, Timeline, highest_priority_entity, generate_offset_watt_values, delta_of,
  returning,
}
use cactus_runner.Timeline.Highest.{IsHighest, highest_priority_entity-IsHighest, HasArchiveTime}
use cactus_runner.Timeline.Values.{
  columns, interval_starts, generate_offset_watt_values-ends, generate_offset_watt_values-columns,
}
use cactus_runner.Timeline.Trees.{IntervalTrees}

-- A row that is its value in watts, from one second to another.
abbrev active : (watts : ℕ) (begin end changed : Time) → Interval ℕ
active watts begin end changed = record {
  begin = begin * 1000000;
  end = end * 1000000;
  entity = record { row = watts; changed_time = changed; archive = none };
}

abbrev replaced : (watts : ℕ) (begin end archived : Time) → Interval ℕ
replaced watts begin end archived = record {
  begin = begin * 1000000;
  end = end * 1000000;
  entity = record {
    row = watts;
    changed_time = 0;
    archive = some (record { deleted_time = none; archive_time = some archived });
  };
}

abbrev overlapping : {A : Type 0} → Slice A
overlapping tree begin end = keep (λ i. ltb i.begin end && ltb begin i.end) tree

abbrev tree : List (Interval ℕ)
tree = active 5000 0 60 3 ∷ active 1500 20 40 4 ∷ replaced 3000 0 30 30 ∷ []

abbrev watts : Entity ℕ → Option ℤ
watts e = some (pos e.row)

highest_priority_entity-IsHighest_example : IsHighest tree (highest_priority_entity tree)
unfolding HasArchiveTime
highest_priority_entity-IsHighest_example =
    highest_priority_entity-IsHighest (active 5000 0 60 3)
      (active 1500 20 40 4 ∷ replaced 3000 0 30 30 ∷ []) (tt, (tt, (tt, tt)))

generate_offset_watt_values-ends_example :
    generate_offset_watt_values overlapping tree 0 60000000 20 (returning watts ∷ []) ≢ none
generate_offset_watt_values-ends_example =
    generate_offset_watt_values-ends overlapping tree 0 60000000 20 (returning watts ∷ [])
      (omega arith)

generate_offset_watt_values-columns_example :
    generate_offset_watt_values overlapping tree 0 50000000 20 (map returning (watts ∷ []))
    ≡ some (
        ok
          (columns overlapping tree (delta_of 20) (watts ∷ []) (interval_starts 3 (delta_of 20) 0)))
generate_offset_watt_values-columns_example =
    generate_offset_watt_values-columns overlapping tree 0 50000000 20 3 (watts ∷ []) (omega arith)
      (omega arith) (λ h. omega arith)

-- The values of the sample: the row that was replaced until it was, then the one changed last.
sample_values :
    columns overlapping tree (delta_of 20) (watts ∷ []) (interval_starts 3 (delta_of 20) 0)
    ≡ (some (pos 3000) ∷ some (pos 3000) ∷ some (pos 5000) ∷ []) ∷ []
unfolding columns interval_starts cactus_runner.Timeline.Values.value_at
    cactus_runner.Timeline.highest_of cactus_runner.Timeline.higher
sample_values = refl

abbrev trees : IntervalTrees
trees = record { build = λ intervals. ok intervals; slice = overlapping }

-- ===== src/Timeline/Trees.antt =====
-- timeline.py: the rows that a timeline samples, and the library intervaltree.
use cactus_runner.Prelude.{List, Option}
use cactus_runner.Exec.{Result}
use cactus_runner.Definitions.{Time}

-- The columns of an ArchiveBase.
pub record ArchiveColumns : Type 0 where
  pub deleted_time : Option Time
  pub archive_time : Option Time

-- A row with what decides its priority; `archive` is there for an instance of ArchiveBase.
pub record Entity (A : Type 0) : Type 0 where
  pub row : A
  pub changed_time : Time
  pub archive : Option ArchiveColumns

pub record Interval (A : Type 0) : Type 0 where
  pub begin : Time
  pub end : Time
  pub entity : Entity A

-- tree[begin:end], the intervals of a tree that overlap, in any order
abbrev pub Slice : Type 0 → Type 0
Slice A = List (Interval A) → (begin end : Time) → List (Interval A)

-- The library's trees: their construction, which raises on an interval that is empty, and the
-- intervals that overlap.
pub record IntervalTrees : Type 1 where
  pub build : {A : Type 0} → List (Interval A) → Result (List (Interval A))
  pub slice : {A : Type 0} → Slice A

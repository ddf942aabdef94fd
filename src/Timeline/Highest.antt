-- ===== src/Timeline/Highest.antt =====
-- timeline.py: which of the rows of an interval is shown.
use cactus_runner.Prelude.{
  ◌<◌, ◌≤◌, List, [], ◌∷◌, none, some, ◌≡◌, ◌⊎◌, inl, inr, refl, arith, All,
}
use cactus_runner.Exec.{Result, ok, err}
use cactus_runner.Definitions.{Time}
use cactus_runner.Timeline.{
  Entity, Interval, entity_to_priority, wins_tiebreak, higher, highest_of, highest_priority_entity,
}

module _ {A : Type 0} where
  -- What decides between two rows of one priority: the time of archival of a row that was replaced,
  -- and the time of change of the others.
  pub tiebreak : Entity A → Time
  tiebreak e = elim e.archive [
    | none ↦ e.changed_time
    | some columns ↦ elim columns.deleted_time [
      | some _ ↦ e.changed_time
      | none ↦ elim columns.archive_time [ none ↦ 0 | some t ↦ t ]
    ]
  ]

  -- The column archive_time of an archive's row is not null.
  unfoldable pub HasArchiveTime : Entity A → Type 0
  HasArchiveTime e = elim e.archive [
    | none ↦ Unit
    | some columns ↦ elim columns.archive_time [ none ↦ ⊥ | some t ↦ Unit ]
  ]

  -- Of lower priority, or of the same one and no later.
  pub IsBelow : Entity A → Entity A → Type 0
  IsBelow e f =
      (entity_to_priority e < entity_to_priority f)
      ⊎ ((entity_to_priority e ≡ entity_to_priority f) × (tiebreak e ≤ tiebreak f))

  IsBelow-refl : (e : Entity A) → IsBelow e e
  unfolding IsBelow
  IsBelow-refl e = inr (refl, omega arith)

  IsBelow-trans : (e f g : Entity A) → IsBelow e f → IsBelow f g → IsBelow e g
  unfolding IsBelow
  IsBelow-trans e f g h k = ground arith

  higher-above :
      (e f : Entity A)
      → HasArchiveTime e
      → HasArchiveTime f
      → IsBelow e (higher e f) × IsBelow f (higher e f)
  unfolding IsBelow higher wins_tiebreak entity_to_priority tiebreak HasArchiveTime
  higher-above e f h k = ground arith

  higher-HasArchiveTime :
      (e f : Entity A) → HasArchiveTime e → HasArchiveTime f → HasArchiveTime (higher e f)
  unfolding higher
  higher-HasArchiveTime e f h k = ground arith

  -- An entity of one of the intervals.
  pub IsEntityOf : Entity A → List (Interval A) → Type 0
  IsEntityOf e [] = ⊥
  IsEntityOf e (i ∷ rest) = (i.entity ≡ e) ⊎ IsEntityOf e rest

  highest_of-above :
      (first : Entity A) (is : List (Interval A))
      → HasArchiveTime first
      → All (λ i. HasArchiveTime i.entity) is
      → IsBelow first (highest_of first is) × All (λ i. IsBelow i.entity (highest_of first is)) is
  unfolding highest_of
  highest_of-above first [] h k = (IsBelow-refl first, tt)
  highest_of-above first (i ∷ rest) h k =
      let next = higher i.entity first in
      let above = higher-above i.entity first k.0 h in
      let others = highest_of-above next rest (higher-HasArchiveTime i.entity first k.0 h) k.1 in
      (
        IsBelow-trans first next (highest_of next rest) above.1 others.0,
        (IsBelow-trans i.entity next (highest_of next rest) above.0 others.0, others.1),
      )

  higher-one : (e f : Entity A) → (higher e f ≡ e) ⊎ (higher e f ≡ f)
  unfolding higher
  higher-one e f = ground arith

  highest_of-entity :
      (first : Entity A) (is : List (Interval A))
      → (first ≡ highest_of first is) ⊎ IsEntityOf (highest_of first is) is
  unfolding highest_of IsEntityOf
  highest_of-entity first [] = inl refl
  highest_of-entity first (i ∷ rest) =
      ground (arith, higher-one i.entity first, highest_of-entity (higher i.entity first) rest)

  -- The result for some intervals: one of their entities, which all of them are below.
  abbrev pub IsHighest : List (Interval A) → Result (Entity A) → Type 0
  IsHighest is (err e) = ⊥
  IsHighest is (ok e) = IsEntityOf e is × All (λ i. IsBelow i.entity e) is

  -- Of intervals that are not none, whose archived rows have their times, highest_priority_entity
  -- returns one of highest priority, and of these one of the latest, in whatever order they stand.
  pub highest_priority_entity-IsHighest :
      (i : Interval A) (is : List (Interval A))
      → All (λ j. HasArchiveTime j.entity) (i ∷ is)
      → IsHighest (i ∷ is) (highest_priority_entity (i ∷ is))
  unfolding highest_priority_entity IsEntityOf
  highest_priority_entity-IsHighest i is h =
      ground (arith, highest_of-above i.entity is, highest_of-entity i.entity is)

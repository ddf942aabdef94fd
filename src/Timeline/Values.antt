-- ===== src/Timeline/Values.antt =====
-- timeline.py: the values at each interval of a timeline.
use cactus_runner.Prelude.{
  ℕ, zero, suc, ◌+◌, ◌*◌, ◌<◌, ◌≤◌, List, [], ◌∷◌, ◌++◌, Option, none, some, ◌≡◌, ◌≢◌, refl, arith,
  map, ltb, ltb→lt, Bool-cases, inl, inr,
}
use cactus_runner.Prelude.Int.{ℤ}
use cactus_runner.Exec.{Result, ok, err}
use cactus_runner.Definitions.{Time}
use cactus_runner.Timeline.{
  Entity, Interval, Slice, Fetcher, returning, highest_priority_entity, highest_of, fetch_all,
  append_each, no_value, empty_column, interval_values, interval_loop, delta_of,
  generate_offset_watt_values,
}

-- The starts of a number of intervals, one after the other.
unfoldable pub interval_starts : (count : ℕ) (delta start : Time) → List Time
interval_starts zero delta start = []
interval_starts (suc n) delta start = start ∷ interval_starts n delta (start + delta)

map-snoc {ℓ κ} :
    {A : Type ℓ} {B : Type κ} (f : A → B) (xs : List A) (x : A)
    → map f (xs ++ x ∷ []) ≡ map f xs ++ f x ∷ []
map-snoc f [] x = refl
map-snoc f (y ∷ xs) x = rw (map-snoc f xs x) refl

append_nil {ℓ} : {A : Type ℓ} (xs : List A) → xs ++ [] ≡ xs
append_nil [] = refl
append_nil (x ∷ xs) = rw (append_nil xs) refl

append_snoc {ℓ} :
    {A : Type ℓ} (xs : List A) (x : A) (ys : List A) → (xs ++ x ∷ []) ++ ys ≡ xs ++ x ∷ ys
append_snoc [] x ys = refl
append_snoc (y ∷ xs) x ys = rw (append_snoc xs x ys) refl

going_on :
    {B C : Type 0} (r : Result B) {next : B → Option (Result C)}
    → ((b : B) → next b ≢ none)
    → (elim r [ err e ↦ some (err e) | ok b ↦ next b ]) ≢ none
going_on (err e) each = ground arith
going_on (ok b) each = each b

times-least : (n d : ℕ) → 0 < d → n ≤ n * d
times-least zero d h = omega arith
times-least (suc n) d h = omega (arith, times-least n d h)

enough : (n d start end : ℕ) → 0 < d → (0 < n → start + n * d < end + d) → n < end + 1
enough zero d start end h least = omega arith
enough (suc n) d start end h least = omega (arith, times-least n d h, least (omega arith))

module _ {A : Type 0} (slice : Slice A) (tree : List (Interval A)) (delta : Time) where
  -- What a reader of rows has for the row that is shown in an interval, if there is one.
  abbrev value_among : (Entity A → Option ℤ) → List (Interval A) → Option ℤ
  value_among read [] = none
  value_among read (i ∷ is) = read (highest_of i.entity is)

  unfoldable pub value_at : (Entity A → Option ℤ) → Time → Option ℤ
  value_at read t = value_among read (slice tree t (t + delta))

  unfoldable pub columns : List (Entity A → Option ℤ) → List Time → List (List (Option ℤ))
  columns readers times = map (λ read. map (value_at read) times) readers

  fetched :
      (readers : List (Entity A → Option ℤ)) (e : Entity A)
      → fetch_all (map returning readers) e ≡ ok (map (λ read. read e) readers)
  unfolding fetch_all
  fetched [] e = refl
  fetched (read ∷ rest) e = rw (fetched rest e) refl

  none_fetched :
      (readers : List (Entity A → Option ℤ))
      → map no_value (map returning readers) ≡ map (λ read. none) readers
  none_fetched [] = refl
  none_fetched (read ∷ rest) = rw (none_fetched rest) refl

  values_among :
      (readers : List (Entity A → Option ℤ)) (is : List (Interval A))
      → interval_values (map returning readers) is ≡ ok (map (λ read. value_among read is) readers)
  unfolding interval_values highest_priority_entity
  values_among readers [] = rw (none_fetched readers) refl
  values_among readers (i ∷ is) = fetched readers (highest_of i.entity is)

  values_of :
      (readers : List (Entity A → Option ℤ)) (t : Time)
      → interval_values (map returning readers) (slice tree t (t + delta))
        ≡ ok (map (λ read. value_at read t) readers)
  unfolding value_at
  values_of readers t = values_among readers (slice tree t (t + delta))

  append_columns :
      (readers : List (Entity A → Option ℤ)) (done : List Time) (t : Time)
      → append_each (columns readers done) (map (λ read. value_at read t) readers)
        ≡ columns readers (done ++ t ∷ [])
  unfolding append_each columns
  append_columns [] done t = refl
  append_columns (read ∷ rest) done t =
      rw (map-snoc (value_at read) done t, append_columns rest done t) refl

  loop_columns :
      (readers : List (Entity A → Option ℤ)) (n fuel current end : ℕ) (done : List Time)
      → n < fuel
      → end ≤ current + n * delta
      → (0 < n → current + n * delta < end + delta)
      → interval_loop fuel slice tree delta current end
          (map returning readers)
          (columns readers done)
        ≡ some (ok (columns readers (done ++ interval_starts n delta current)))
  unfolding interval_loop interval_starts
  loop_columns readers n zero current end done h cover least = absurd (omega arith)
  loop_columns readers zero (suc fuel) current end done h cover least =
      ground (arith, append_nil done)
  loop_columns readers (suc n) (suc fuel) current end done h cover least =
      let below : current + suc n * delta < end + delta = least (omega arith) in
      ground (
        arith,
        values_of readers current,
        append_columns readers done current,
        loop_columns readers n fuel (current + delta) end (done ++ current ∷ []) (omega arith)
            (omega arith) (λ more. omega arith),
        append_snoc done current (interval_starts n delta (current + delta)),
      )

  no_columns :
      (readers : List (Entity A → Option ℤ))
      → map empty_column (map returning readers) ≡ columns readers []
  unfolding columns
  no_columns [] = refl
  no_columns (read ∷ rest) = rw (no_columns rest) refl

  loop_ends :
      (fetchers : List (Fetcher A)) (fuel current end : ℕ) (done : List (List (Option ℤ)))
      → 0 < delta
      → end < fuel + current
      → 0 < fuel
      → interval_loop fuel slice tree delta current end fetchers done ≢ none
  unfolding interval_loop
  loop_ends fetchers zero current end done d h f = absurd (omega arith)
  loop_ends fetchers (suc fuel) current end done d h f =
      let each : current < end
          → (next : List (List (Option ℤ)))
          → interval_loop fuel slice tree delta (current + delta) end fetchers next ≢ none =
        λ e next.
          loop_ends fetchers fuel (current + delta) end next d (omega arith) (omega arith) in
      elim (Bool-cases (ltb current end)) [
        | inr past ↦ ground arith
        | inl before ↦
            rw (before, interval_loop)
              (going_on (interval_values fetchers (slice tree current (current + delta)))
                (λ values. each (ltb→lt current end before) (append_each done values)))
      ]

module _ {A : Type 0} where
  -- The values at regular intervals of at least a second are found, or fetching one raises: the loop
  -- ends.
  pub generate_offset_watt_values-ends :
      (slice : Slice A) (tree : List (Interval A)) (start end seconds : ℕ)
      (fetchers : List (Fetcher A))
      → 0 < seconds
      → generate_offset_watt_values slice tree start end seconds fetchers ≢ none
  unfolding generate_offset_watt_values
  generate_offset_watt_values-ends slice tree start end seconds fetchers h =
      loop_ends slice tree (delta_of seconds) fetchers (end + 1) start end _ (omega arith)
        (omega arith) (omega arith)

  -- Where n is the least number of intervals that reach from the start to the end, each stream has n
  -- values: at each interval that of the row of highest priority among those that overlap it, and
  -- none where no row does.
  pub generate_offset_watt_values-columns :
      (slice : Slice A) (tree : List (Interval A)) (start end seconds n : ℕ)
      (readers : List (Entity A → Option ℤ))
      → 0 < seconds
      → end ≤ start + n * delta_of seconds
      → (0 < n → start + n * delta_of seconds < end + delta_of seconds)
      → generate_offset_watt_values slice tree start end seconds (map returning readers)
        ≡ some (
            ok (
              columns slice tree
                (delta_of seconds)
                readers
                (interval_starts n (delta_of seconds) start)))
  unfolding generate_offset_watt_values
  generate_offset_watt_values-columns slice tree start end seconds n readers h cover least =
      rw (no_columns slice tree (delta_of seconds) readers) (
        loop_columns slice tree (delta_of seconds) readers n (end + 1) start end []
          (enough n (delta_of seconds) start end (omega arith) least) cover least)

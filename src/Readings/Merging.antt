-- ===== src/Readings/Merging.antt =====
-- readings.py: what the merged readings are, and that merging does not fail.
use cactus_runner.Prelude.{
  String, Bool, true, false, List, [], ◌∷◌, none, some, ◌≡◌, refl, subst, ap, arith, length,
}
use cactus_runner.Prelude.Int.{ℤ, pos, negsuc, eqb_ℤ}
use cactus_runner.Exec.{Result, ok, err, continue, lift, ◌>>=◌}
use cactus_runner.Exec.Total.{returns, Total, Total-pure, Total-lift, Total-bind, Total-on_option}
use cactus_runner.Services.{Services, SiteReadingType, SiteReading}
use cactus_runner.EnvoyCommon.{query_active_site}
use cactus_runner.EnvoyCommon.Readings.{
  get_csip_aus_site_reading_types_partitioned, get_csip_aus_site_reading_types, get_site_readings,
}
use cactus_runner.Readings.{
  Group, members, group_reading_types, ScaledReading, Frames, frame_of, keys, concat_frames,
  ReadingSpecifier, scale_readings, read_types, read_specifiers, merge_readings, with_merged,
  add_frame, group_loop, get_readings,
}
use cactus_runner.Readings.Members.{
  primaries, IsSeparated, AllHold, AllGroups, group_loop-AllGroups, primaries-IsSeparated,
}

abbrev has_frame : Frames → SiteReadingType → Bool
has_frame frames t = elim (frame_of t frames) [ none ↦ false | some _ ↦ true ]

-- Merged readings, with at most one frame for each quantity.
abbrev pub IsMerged : Result Frames → Type 0
IsMerged (ok merged) = IsSeparated (keys merged)
IsMerged (err e) = ⊥

-- Frames with these keys, in order.
abbrev IsKeyed : List SiteReadingType → Result Frames → Type 0
IsKeyed types (ok frames) = types ≡ keys frames
IsKeyed types (err e) = ⊥

keyed :
    (S : Services) (g : Group) (rows : Result (List ScaledReading)) (rest : Result Frames)
    (types : List SiteReadingType)
    → returns rows ≡ true
    → IsKeyed types rest
    → IsKeyed (g.primary ∷ types) (with_merged S g rows rest)
keyed S g (ok rows) (ok rest) types h e = ap (λ ts. g.primary ∷ ts) e
keyed S g (ok rows) (err x) types h e = e
keyed S g (err x) rest types h e = cc

module _ (frames : Frames) where
  concat-returns :
      (types : List SiteReadingType)
      → AllHold (has_frame frames) types
      → returns (concat_frames frames types) ≡ true
  unfolding concat_frames
  concat-returns [] h = refl
  concat-returns (t ∷ types) (found, rest) = ground (arith, concat-returns types rest)

  merge-keys :
      (S : Services) (groups : List Group)
      → AllGroups (has_frame frames) groups
      → IsKeyed (primaries groups) (merge_readings S frames groups)
  unfolding merge_readings
  merge-keys S [] h = refl
  merge-keys S (g ∷ groups) (hg, h) =
      keyed S g (concat_frames frames (members g)) (merge_readings S frames groups)
        (primaries groups) (concat-returns (members g) hg) (merge-keys S groups h)

equals_self : (a : ℤ) → eqb_ℤ a a ≡ true
equals_self (pos a) = ground arith
equals_self (negsuc a) = ground arith

-- A key is found behind another entry too.
behind :
    (u : SiteReadingType) (frame : List ScaledReading) (frames : Frames)
    (types : List SiteReadingType)
    → AllHold (has_frame frames) types
    → AllHold (has_frame ((u, frame) ∷ frames)) types
unfolding frame_of
behind u frame frames [] h = tt
behind u frame frames (t ∷ types) (found, h) = (ground arith, behind u frame frames types h)

keys-found : (frames : Frames) → AllHold (has_frame frames) (keys frames)
unfolding frame_of
keys-found [] = tt
keys-found ((t, frame) ∷ rest) = (
  ground (arith, equals_self t.site_reading_type_id),
  behind t frame rest (keys rest) (keys-found rest),
)

merged :
    (result : Result Frames) (types : List SiteReadingType)
    → IsKeyed types result
    → IsSeparated types
    → IsMerged result
merged (ok frames) types e h = subst IsSeparated e h
merged (err e) types h s = h

module _ (S : Services) where
  -- Whatever frames were read, those of the groups are merged without an error.
  pub merge_readings-IsMerged :
      (frames : Frames) → IsMerged (merge_readings S frames (group_reading_types (keys frames)))
  unfolding group_reading_types group_loop
  merge_readings-IsMerged frames =
      merged (merge_readings S frames (group_reading_types (keys frames))) _
        (merge-keys frames S _
          (group_loop-AllGroups (has_frame frames) (keys frames) [] (keys-found frames) tt))
        (primaries-IsSeparated (length (keys frames)) (keys frames) (omega arith))

  frame-returns :
      (frames : Frames) (t : SiteReadingType) (rows : List SiteReading)
      → returns (add_frame S frames t rows) ≡ true
  unfolding scale_readings
  frame-returns frames t [] = refl
  frame-returns frames t (r ∷ rows) = refl

  read_types-returns :
      ((t : SiteReadingType) → Total (get_site_readings S t))
      → (types : List SiteReadingType) (frames : Frames) → Total (read_types S frames types)
  unfolding read_types scale_readings
  read_types-returns answers [] frames = Total-pure frames
  read_types-returns answers (t ∷ types) frames = Total-bind _ _ (answers t) (λ rows.
      Total-bind _ _ (Total-lift _ (frame-returns frames t rows))
        (λ added. read_types-returns answers types added))

  read_specifiers-returns :
      ((t : SiteReadingType) → Total (get_site_readings S t))
      → ((s : ReadingSpecifier)
          → Total (get_csip_aus_site_reading_types S s.uom s.location s.kind s.qualifier))
      → (specifiers : List ReadingSpecifier) (frames : Frames)
      → Total (read_specifiers S frames specifiers)
  unfolding read_specifiers
  read_specifiers-returns answers types_of [] frames = Total-pure frames
  read_specifiers-returns answers types_of (s ∷ specifiers) frames =
      Total-bind _ _ (types_of s) (λ types.
        Total-bind _ _ (read_types-returns answers types frames)
          (λ added. read_specifiers-returns answers types_of specifiers added))

  settled :
      (outcome : Result Frames × S.Env)
      → returns outcome.0 ≡ true
      → IsMerged
          (continue
            (λ readings. lift (merge_readings S readings (group_reading_types (keys readings))))
            outcome).0
  unfolding lift
  settled (ok readings, e) h = merge_readings-IsMerged readings
  settled (err x, e) h = cc

module _ (S : Services) (sites : Total S.sites) (types : Total S.site_reading_types)
    (readings : Total S.site_readings) where
  types-returns :
      (uom location kind qualifier : String)
      → Total (get_csip_aus_site_reading_types S uom location kind qualifier)
  unfolding get_csip_aus_site_reading_types get_csip_aus_site_reading_types_partitioned
      query_active_site
  types-returns uom location kind qualifier =
      Total-bind _ _
        (Total-bind _ _ (Total-bind _ _ sites (λ rows. Total-pure _)) (λ site.
          Total-on_option site _ _ (Total-pure _)
            (λ active. Total-bind _ _ types (λ rows. Total-pure _))))
        (λ found. Total-pure _)

  readings-returns : (t : SiteReadingType) → Total (get_site_readings S t)
  unfolding get_site_readings
  readings-returns t = Total-bind _ _ readings (λ rows. Total-pure _)

  -- Where the tables of the sites, the reading types and the readings can be read, the readings of any
  -- kinds can be had: neither scaling nor merging fails. There is at most one frame for each quantity.
  pub get_readings-IsMerged :
      (specifiers : List ReadingSpecifier) (e : S.Env) → IsMerged (get_readings S specifiers e).0
  unfolding get_readings ◌>>=◌
  get_readings-IsMerged specifiers e = settled S (read_specifiers S [] specifiers e) (
      (read_specifiers-returns S readings-returns
          (λ s. types-returns s.uom s.location s.kind s.qualifier) specifiers []).each
        e)

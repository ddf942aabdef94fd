-- ===== src/Readings/Members.antt =====
-- readings.py: what holds of all types that are grouped, and the quantities of the groups.
use cactus_runner.Prelude.{
  ℕ, zero, suc, ◌≤◌, Bool, true, false, not, List, [], ◌∷◌, ◌++◌, ◌≡◌, sym, subst, arith, map,
  length, All, Bool-cases, inl, inr,
}
use cactus_runner.Services.{SiteReadingType}
use cactus_runner.Readings.{
  reading_types_equivalent, Group, members, alone, add_to_groups, group_loop, group_reading_types,
}
use cactus_runner.Readings.Grouping.{is_like, unlike, unlike-length, first_group}

abbrev pub primaries : List Group → List SiteReadingType
primaries groups = map (λ g. g.primary) groups

-- No type is of the quantity of an earlier one.
abbrev pub IsSeparated : List SiteReadingType → Type 0
IsSeparated [] = Unit
IsSeparated (t ∷ types) = All (λ u. is_like t u ≡ false) types × IsSeparated types

module _ (holds : SiteReadingType → Bool) where
  abbrev pub AllHold : List SiteReadingType → Type 0
  AllHold types = All (λ t. holds t ≡ true) types

  abbrev pub AllGroups : List Group → Type 0
  AllGroups groups = All (λ g. AllHold (members g)) groups

  AllHold-snoc :
      (first : List SiteReadingType) (t : SiteReadingType)
      → AllHold first
      → holds t ≡ true
      → AllHold (first ++ (t ∷ []))
  AllHold-snoc [] t h found = (found, tt)
  AllHold-snoc (u ∷ first) t (hu, h) found = (hu, AllHold-snoc first t h found)

  added :
      (t : SiteReadingType) (groups : List Group)
      → holds t ≡ true
      → AllGroups groups
      → AllGroups (add_to_groups t groups)
  unfolding add_to_groups
  added t [] found h = ((found, tt), tt)
  added t (g ∷ groups) found (hg, h) = elim (Bool-cases (reading_types_equivalent t g.primary)) [
    | inl like ↦ ground (arith, AllHold-snoc g.others t hg.1 found)
    | inr other ↦ ground (arith, added t groups found h)
  ]

  pub group_loop-AllGroups :
      (types : List SiteReadingType) (groups : List Group)
      → AllHold types
      → AllGroups groups
      → AllGroups (group_loop types groups)
  unfolding group_loop
  group_loop-AllGroups [] groups found h = h
  group_loop-AllGroups (t ∷ types) groups (found, rest) h =
      group_loop-AllGroups types (add_to_groups t groups) rest (added t groups found h)

unlike-AllHold :
    (t : SiteReadingType) (types : List SiteReadingType)
    → AllHold (λ u. not (is_like t u)) (unlike t types)
unlike-AllHold t [] = tt
unlike-AllHold t (u ∷ types) = ground (arith, unlike-AllHold t types)

primaries-unlike :
    (t : SiteReadingType) (groups : List Group)
    → AllGroups (λ u. not (is_like t u)) groups
    → All (λ u. is_like t u ≡ false) (primaries groups)
primaries-unlike t [] h = tt
primaries-unlike t (g ∷ groups) (hg, h) = (ground (arith, hg.0), primaries-unlike t groups h)

-- The first types of the groups are of different quantities.
pub primaries-IsSeparated :
    (n : ℕ) (types : List SiteReadingType)
    → length types ≤ n
    → IsSeparated (primaries (group_reading_types types))
unfolding group_reading_types group_loop add_to_groups
primaries-IsSeparated n [] h = tt
primaries-IsSeparated zero (t ∷ types) h = absurd (omega (arith, h))
primaries-IsSeparated (suc n) (t ∷ types) h =
    subst (λ groups. IsSeparated (primaries groups)) (sym (first_group types (alone t) []))
      (
        primaries-unlike t _ (
            group_loop-AllGroups (λ u. not (is_like t u)) (unlike t types) []
              (unlike-AllHold t types) tt),
        primaries-IsSeparated n (unlike t types) (omega (arith, h, unlike-length t types)),
      )

-- ===== src/Readings/Grouping.antt =====
-- readings.py: the groups of `group_reading_types`, against the classes of a list.
use cactus_runner.Prelude.{
  ℕ, zero, suc, ◌≤◌, Bool, not, List, [], ◌∷◌, ◌++◌, ◌≡◌, refl, ap, ◌∙◌, arith, map, keep, length,
  Bool-cases, inl, inr,
}
use cactus_runner.Services.{SiteReadingType}
use cactus_runner.Readings.{
  reading_types_equivalent, Group, members, joined, add_to_groups, group_loop, group_reading_types,
}

-- The types of the quantity of a type.
abbrev pub is_like : (t u : SiteReadingType) → Bool
is_like t u = reading_types_equivalent u t

abbrev pub alike : SiteReadingType → List SiteReadingType → List SiteReadingType
alike t types = keep (is_like t) types

abbrev pub unlike : SiteReadingType → List SiteReadingType → List SiteReadingType
unlike t types = keep (λ u. not (is_like t u)) types

-- The classes of a list: its first type with all that are like it, then the classes of the others,
-- for at most so many types.
pub classes : ℕ → List SiteReadingType → List (List SiteReadingType)
classes zero types = []
classes (suc n) [] = []
classes (suc n) (t ∷ types) = (t ∷ alike t types) ∷ classes n (unlike t types)

pub unlike-length :
    (t : SiteReadingType) (types : List SiteReadingType) → length (unlike t types) ≤ length types
unlike-length t [] = omega arith
unlike-length t (u ∷ types) = ground (arith, unlike-length t types)

abbrev extended : Group → List SiteReadingType → Group
extended group types = record group { others = group.others ++ types }

append_nil : (types : List SiteReadingType) → types ++ [] ≡ types
append_nil [] = refl
append_nil (t ∷ types) = ap (λ ts. t ∷ ts) (append_nil types)

append_one :
    (first : List SiteReadingType) (t : SiteReadingType) (types : List SiteReadingType)
    → (first ++ (t ∷ [])) ++ types ≡ first ++ (t ∷ types)
append_one [] t types = refl
append_one (u ∷ first) t types = ap (λ ts. u ∷ ts) (append_one first t types)

-- The first group takes all that is like its first type; the others go on without it.
pub first_group :
    (types : List SiteReadingType) (group : Group) (groups : List Group)
    → group_loop types (group ∷ groups)
      ≡ extended group (alike group.primary types) ∷ group_loop (unlike group.primary types) groups
unfolding group_loop add_to_groups
first_group [] group groups = ground (arith, append_nil group.others)
first_group (t ∷ types) group groups =
    elim (Bool-cases (reading_types_equivalent t group.primary)) [
      | inl like ↦ ground (
        arith,
        first_group types (joined t group) groups,
        append_one group.others t (alike group.primary types),
      )
      | inr other ↦ ground (arith, first_group types group (add_to_groups t groups))
    ]

-- The groups are the classes of the list: each type that no earlier group is for starts one, which
-- has the types that are equivalent to it, all in the order of the list.
pub group_reading_types-classes :
    (n : ℕ) (types : List SiteReadingType)
    → length types ≤ n
    → map members (group_reading_types types) ≡ classes n types
unfolding group_reading_types group_loop add_to_groups classes
group_reading_types-classes zero [] h = refl
group_reading_types-classes zero (t ∷ types) h = absurd (omega (arith, h))
group_reading_types-classes (suc n) [] h = refl
group_reading_types-classes (suc n) (t ∷ types) h =
    ap (map members) (first_group types (record { primary = t; others = [] }) [])
    ∙ ap (λ rest. (t ∷ alike t types) ∷ rest)
        (group_reading_types-classes n (unlike t types) (omega (arith, h, unlike-length t types)))

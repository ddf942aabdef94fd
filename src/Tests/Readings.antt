-- ===== src/Tests/Readings.antt =====
-- Readings of one site, in two reading types of one quantity.
use cactus_runner.Prelude.{◌≡◌, List, [], ◌∷◌, map, arith, refl}
use cactus_runner.Prelude.Int.{pos}
use cactus_runner.Exec.{ok}
use cactus_runner.Services.{Services, SiteReadingType}
use cactus_runner.Readings.{
  members, group_reading_types, mandatory_reading_specifiers, get_readings,
}
use cactus_runner.Readings.Grouping.{classes, group_reading_types-classes}
use cactus_runner.Readings.Merging.{IsMerged, get_readings-IsMerged}
use cactus_runner.Tests.Samples.{services}
use cactus_runner.Tests.Messages.{reading_type, reading, site}

-- The same quantity with another multiplier.
abbrev in_kilovolts : SiteReadingType
in_kilovolts = record reading_type { site_reading_type_id = pos 8; power_of_ten_multiplier = pos 3 }

abbrev other_phase : SiteReadingType
other_phase = record reading_type { site_reading_type_id = pos 9; phase = pos 128 }

abbrev types : List SiteReadingType
types = reading_type ∷ other_phase ∷ in_kilovolts ∷ []

group_reading_types-classes_example : map members (group_reading_types types) ≡ classes 3 types
group_reading_types-classes_example = group_reading_types-classes 3 types (omega arith)

-- Services with readings in two types.
abbrev measured : Services
measured = record services {
  sites = λ n. (ok (site ∷ []), n);
  site_reading_types = λ n. (ok types, n);
  site_readings = λ n. (ok (reading ∷ record reading { site_reading_type_id = pos 8 } ∷ []), n);
}

get_readings-IsMerged_example : IsMerged (get_readings measured mandatory_reading_specifiers 0).0
get_readings-IsMerged_example =
    get_readings-IsMerged measured (record { each = λ n. refl }) (record { each = λ n. refl })
      (record { each = λ n. refl }) mandatory_reading_specifiers 0

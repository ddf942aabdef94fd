-- ===== src/Warning/First.antt =====
-- warning.py: the first warning of each type is kept.
use cactus_runner.Prelude.{String, Option, none, some, ◌≡◌, arith, str_eq, eq_iff, if◌then◌else◌}
use cactus_runner.Prelude.Dict
use cactus_runner.Prelude.Dict.{Dict, get-set}
use cactus_runner.Exec.{◌>>=◌}
use cactus_runner.Models.{ActiveTestProcedure, WarningEntry}
use cactus_runner.Services.{Services}
use cactus_runner.World.{World, observe, time_now, the_procedure, update_procedure}
use cactus_runner.Warning.{add_warning, warn}

-- The warning of a type, of the active procedure.
abbrev pub warning_of : String → Option ActiveTestProcedure → Option WarningEntry
warning_of type none = none
warning_of type (some p) = Dict.get type p.warnings

abbrev pub messages : Option WarningEntry → Option String
messages none = none
messages (some w) = some w.message

-- A warning is kept once it is there: a later one of the same type, or of another, does not touch
-- it. A type that had none has the new message, and no other type gets one.
pub warn-warning_of :
    (S : Services) (type description message other : String) (w : World S) (p : ActiveTestProcedure)
    → w.runner.active_test_procedure ≡ some p
    → messages (warning_of other (warn S type description message w).1.runner.active_test_procedure)
      ≡ elim (messages (Dict.get other p.warnings)) [
        | some earlier ↦ some earlier
        | none ↦ if str_eq type other then some message else none
      ]
unfolding warn add_warning update_procedure time_now observe the_procedure ◌>>=◌
warn-warning_of S type description message other w p h = ground (
  arith,
  eq_iff type other,
  get-set type other
      (record {
        type = type;
        description = description;
        message = message;
        timestamp = (S.clock w.env).0;
      })
      p.warnings,
)

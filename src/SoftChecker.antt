-- ===== src/SoftChecker.antt =====
-- check.py: how the failures within a check, and the results of several checks, are joined.
use cactus_runner.Prelude.{
  String, Bool, true, false, not, ◌||◌, List, [], ◌∷◌, ◌++◌, none, some, keep, if◌then◌else◌,
}
use cactus_runner.Prelude.Strings.{join}
use cactus_runner.Models.{CheckResult}

abbrev pub pass : CheckResult
pass = record { passed = true; description = none }

abbrev pub fail : String → CheckResult
fail message = record { passed = false; description = some message }

abbrev pub passed_with : String → CheckResult
passed_with message = record { passed = true; description = some message }

-- SoftChecker is the list of its failures.
unfoldable pub add : String → List CheckResult → List CheckResult
add message failures = failures ++ fail message ∷ []

unfoldable pub descriptions : List CheckResult → List String
descriptions [] = []
descriptions (c ∷ rest) = elim c.description [
  | none ↦ descriptions rest
  | some d ↦ d ∷ descriptions rest
]

unfoldable pub finalize : List CheckResult → CheckResult
finalize [] = pass
finalize (c ∷ rest) = fail (join "; " (descriptions (c ∷ rest)))

abbrev is_failing : CheckResult → Bool
is_failing c = not c.passed

unfoldable pub any_failing : List CheckResult → Bool
any_failing [] = false
any_failing (c ∷ rest) = is_failing c || any_failing rest

unfoldable pub merge_checks : List CheckResult → CheckResult
unfolding any_failing descriptions
merge_checks checks =
    if any_failing checks
    then fail (join "\n" (descriptions (keep is_failing checks)))
    else record { passed = true; description = some (join "\n" (descriptions checks)) }

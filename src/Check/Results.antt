-- ===== src/Check/Results.antt =====
-- check.py: when the joined result of several checks passes.
use cactus_runner.Prelude.{String, Bool, true, false, List, [], ◌∷◌, ◌≡◌, ◌↔◌, arith, All}
use cactus_runner.Prelude.Dict
use cactus_runner.Prelude.Dict.{Dict}
use cactus_runner.Exec.{ok}
use cactus_runner.Definitions.{Resolved, items}
use cactus_runner.Models.{Listener, ActiveTestProcedure, CheckResult}
use cactus_runner.SoftChecker.{pass, any_failing, merge_checks}
use cactus_runner.Check.{ignores, failing_active_steps, remaining_steps, check_all_steps_complete}

no_failing :
    (cs : List CheckResult)
    → (any_failing cs ≡ false) ↔ All (λ (c : CheckResult). c.passed ≡ true) cs
unfolding any_failing
no_failing [] = ground arith
no_failing (c ∷ cs) = ground (arith, no_failing cs)

-- `merge_checks` passes exactly if every one of the checks does.
pub merge_checks-passed :
    (cs : List CheckResult)
    → ((merge_checks cs).passed ≡ true) ↔ All (λ (c : CheckResult). c.passed ≡ true) cs
unfolding merge_checks
merge_checks-passed cs = ground (arith, no_failing cs)

none_failing :
    (ignored : String → Bool) (ls : List Listener)
    → (failing_active_steps ignored ls ≡ []) ↔ All (λ (l : Listener). ignored l.step ≡ true) ls
unfolding failing_active_steps
none_failing ignored [] = ground arith
none_failing ignored (l ∷ ls) = ground (arith, none_failing ignored ls)

-- The check on all steps passes, at the names that it ignores, exactly if each listener that is left
-- on the procedure is of an ignored step.
pub check_all_steps_complete-passed :
    (p : ActiveTestProcedure) (params : Dict Resolved) (ignored : String → Bool)
    → ignores (Dict.get_or "ignored_steps" (items []) params) ≡ ok ignored
    → (check_all_steps_complete p params ≡ ok pass)
      ↔ All (λ (l : Listener). ignored l.step ≡ true) p.listeners
unfolding check_all_steps_complete remaining_steps
check_all_steps_complete-passed p params ignored h =
    ground (arith, none_failing ignored p.listeners)

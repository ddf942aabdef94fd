-- ===== src/Main/Tracking/Completion.antt =====
-- check.py, models.py: the check on all steps, read against the table of steps.
use cactus_runner.Prelude.{
  String, Bool, true, false, List, [], ◌∷◌, some, eq_iff, ◌≡◌, ◌↔◌, arith, All, Option-cases, inl,
  inr, subst,
}
use cactus_runner.Prelude.Dict
use cactus_runner.Prelude.Dict.{Dict}
use cactus_runner.Exec.{ok}
use cactus_runner.Definitions.{Resolved, items}
use cactus_runner.Models.{Listener, StepInfo, ActiveTestProcedure, get_step_status, resolved}
use cactus_runner.Services.{Services}
use cactus_runner.World.{World}
use cactus_runner.SoftChecker.{pass}
use cactus_runner.Check.{ignores, check_all_steps_complete}
use cactus_runner.Check.Results.{check_all_steps_complete-passed}
use cactus_runner.Handler.Replies.{Config}
use cactus_runner.Main.{Reachable}
use cactus_runner.Main.Tracking.Listeners.{has_listener, IsTracked}
use cactus_runner.Main.Tracking.{WhenActive, HasNamedSteps, Reachable-IsTracked}

module _ (ignored : String → Bool) where
  abbrev OnlyIgnored : List Listener → Type 0
  OnlyIgnored ls = (step : String) → ignored step ≡ false → has_listener step ls ≡ false

  none_left_otherwise :
      (ls : List Listener) → All (λ (l : Listener). ignored l.step ≡ true) ls → OnlyIgnored ls
  unfolding has_listener
  none_left_otherwise [] h step e = ground arith
  none_left_otherwise (l ∷ ls) h step e =
      ground (arith, eq_iff l.step step, none_left_otherwise ls h.1 step e)

  left_are_ignored :
      (ls : List Listener) → OnlyIgnored ls → All (λ (l : Listener). ignored l.step ≡ true) ls
  unfolding has_listener
  left_are_ignored [] h = tt
  left_are_ignored (l ∷ ls) h = (
    ground (arith, eq_iff l.step l.step, h l.step),
    left_are_ignored ls (λ step e. ground (arith, h step e)),
  )

  -- The same, of the table of steps.
  abbrev pub AllResolved : Dict StepInfo → Type 0
  AllResolved steps =
      (step : String) (i : StepInfo)
      → Dict.get step steps ≡ some i
      → ignored step ≡ false
      → get_step_status i ≡ resolved

  left_or_resolved :
      (p : ActiveTestProcedure) → IsTracked p → OnlyIgnored p.listeners ↔ AllResolved p.step_status
  unfolding get_step_status
  left_or_resolved p t = (
    λ h step i e g. ground (arith, t.left step, h step g),
    λ h step g. elim (Option-cases (Dict.get step p.step_status)) [
      | inl e ↦ ground (arith, t.left step)
      | inr (i, e) ↦ ground (arith, t.left step, h step i e g)
    ],
  )

-- In every state that is reached, with definitions whose steps have different names: the check on
-- all steps passes, at the names that it ignores, exactly if each other step is resolved.
pub Reachable-AllResolved :
    (S : Services) (unique : HasNamedSteps S) (config : Config) (w : World S)
    → Reachable S config w
    → (p : ActiveTestProcedure) → w.runner.active_test_procedure ≡ some p
    → (params : Dict Resolved) (ignored : String → Bool)
    → ignores (Dict.get_or "ignored_steps" (items []) params) ≡ ok ignored
    → (check_all_steps_complete p params ≡ ok pass) ↔ AllResolved ignored p.step_status
Reachable-AllResolved S unique config w reached p active params ignored e =
    let tracked : IsTracked p =
      subst (WhenActive IsTracked) active (Reachable-IsTracked S unique config w reached) in
    let passed = check_all_steps_complete-passed p params ignored e in
    let table = left_or_resolved ignored p tracked in
    (
      λ done. table.0 (none_left_otherwise ignored p.listeners (passed.0 done)),
      λ done. passed.1 (left_are_ignored ignored p.listeners (table.1 done)),
    )

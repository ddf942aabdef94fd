-- ===== src/Status/Instructions.antt =====
-- status.py: the instructions of a test that has started, against its table of steps.
use cactus_runner.Prelude.{
  String, Bool, true, false, List, [], ◌∷◌, ◌++◌, Option, none, some, ◌≡◌, refl, subst, ap, arith,
  All, eq_refl, Option-cases, inl, inr, if◌then◌else◌,
}
use cactus_runner.Prelude.Dict
use cactus_runner.Prelude.Dict.{Dict}
use cactus_runner.Exec.{ok}
use cactus_runner.Definitions.{Time, Step}
use cactus_runner.Models.{Listener, StepInfo, get_step_status, ActiveTestProcedure}
use cactus_runner.Services.{Services}
use cactus_runner.World.{World}
use cactus_runner.Handler.Replies.{Config}
use cactus_runner.Main.{Reachable}
use cactus_runner.Main.Tracking.Listeners.{has_listener, IsTracked}
use cactus_runner.Main.Tracking.{WhenActive, HasNamedSteps, Reachable-IsTracked}
use cactus_runner.Status.{
  is_active, step_instructions, enabled_instructions, unless_empty, get_current_instructions,
}

-- The instructions of the step of this name.
abbrev instructions_of : String → Option Step → List String
instructions_of name none = []
instructions_of name (some step) = step_instructions name step

abbrev is_active_entry : Option StepInfo → Bool
is_active_entry none = false
is_active_entry (some i) = is_active (get_step_status i)

-- By the table of steps: the instructions of the steps that are active, in the order of their
-- listeners.
pub active_instructions : Dict Step → Dict StepInfo → List Listener → List String
active_instructions steps step_status [] = []
active_instructions steps step_status (l ∷ ls) =
    let rest = active_instructions steps step_status ls in
    if is_active_entry (Dict.get l.step step_status)
    then instructions_of l.step (Dict.get l.step steps) ++ rest
    else rest

abbrev AllLeft : (all ls : List Listener) → Type 0
AllLeft all ls = All (λ (l : Listener). has_listener l.step all ≡ true) ls

AllLeft-cons : (l : Listener) (all ls : List Listener) → AllLeft all ls → AllLeft (l ∷ all) ls
unfolding has_listener
AllLeft-cons l all [] h = tt
AllLeft-cons l all (k ∷ ls) h = (ground arith, AllLeft-cons l all ls h.1)

AllLeft-self : (ls : List Listener) → AllLeft ls ls
unfolding has_listener
AllLeft-self [] = tt
AllLeft-self (l ∷ ls) = (ground (arith, eq_refl l.step), AllLeft-cons l ls ls (AllLeft-self ls))

module _ (p : ActiveTestProcedure) (t : IsTracked p) where
  -- What the invariant says of a listener that is left.
  one :
      (l : Listener) (ls : List Listener)
      → has_listener l.step p.listeners ≡ true
      → enabled_instructions p.definition.steps p.enabled_times ls
        ≡ ok (active_instructions p.definition.steps p.step_status ls)
      → enabled_instructions p.definition.steps p.enabled_times (l ∷ ls)
        ≡ ok (active_instructions p.definition.steps p.step_status (l ∷ ls))
  unfolding enabled_instructions active_instructions get_step_status
  one l ls left ih = elim (Option-cases (Dict.get l.step p.step_status)) [
    | inl e ↦ ground (arith, t.left l.step)
    | inr (i, e) ↦ elim (Option-cases (Dict.get l.step p.definition.steps)) [
      | inl g ↦ ground (arith, t.named l.step g)
      | inr (s, g) ↦ ground (arith, t.left l.step, t.enabled l.step i e)
    ]
  ]

  each :
      (ls : List Listener)
      → AllLeft p.listeners ls
      → enabled_instructions p.definition.steps p.enabled_times ls
        ≡ ok (active_instructions p.definition.steps p.step_status ls)
  unfolding enabled_instructions active_instructions
  each [] h = refl
  each (l ∷ ls) h = one l ls h.0 (each ls h.1)

  pub tracked_instructions :
      {started : Time}
      → p.started_at ≡ some started
      → get_current_instructions p
        ≡ unless_empty (ok (active_instructions p.definition.steps p.step_status p.listeners))
  unfolding get_current_instructions
  tracked_instructions e = rw e (ap unless_empty (each p.listeners (AllLeft-self p.listeners)))

-- In every state that is reached, with definitions whose steps have different names: once the test
-- has started the current instructions can be had, and they are those of the steps that are active
-- by the table of steps, in the order of the listeners; there are none if these have none.
pub Reachable-instructions :
    (S : Services) (unique : HasNamedSteps S) (config : Config) (w : World S)
    → Reachable S config w
    → (p : ActiveTestProcedure) → w.runner.active_test_procedure ≡ some p
    → (started : Time) → p.started_at ≡ some started
    → get_current_instructions p
      ≡ unless_empty (ok (active_instructions p.definition.steps p.step_status p.listeners))
Reachable-instructions S unique config w reached p active started e =
    tracked_instructions p
      (subst (WhenActive IsTracked) active (Reachable-IsTracked S unique config w reached)) e

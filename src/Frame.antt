-- ===== src/Frame.antt =====
-- What keeps a property of the runner's state. The code writes the active test procedure in few
-- ways, the fields of `Closed`; the modules below show that a property which is closed under these
-- is kept by the evaluator, the checks, the actions and the event engine, whatever the services do
-- and whether or not an exception ends the call.
pub mod Evaluator
pub mod Actions
pub mod Server
pub mod Tags
pub mod Apply
pub mod Checks
pub mod Engine
pub mod Starting
pub mod Initialising
pub mod Proxying
pub mod Fixed
pub mod Prepared
pub mod Reading
pub mod Writes
use cactus_runner.Prelude.{ℕ, String, Bool, List, Option, none, some}
use cactus_runner.Prelude.Int.{ℤ}
use cactus_runner.Exec.{Exec, Result}
use cactus_runner.Exec.Preserves.{Preserves}
use cactus_runner.Models.{Listener, ActiveTestProcedure, WarningEntry, RunnerState}
use cactus_runner.Services.{Services, Command}
use cactus_runner.World.{
  World, Run, map_procedure, call, observe, time_now, send, the_procedure, update_procedure,
  update_runner,
}
use cactus_runner.Resolvers.{resolve_random_uri}
use cactus_runner.Warning.{add_warning}
use cactus_runner.Finalize.{set_finished}
use cactus_runner.Actions.Steps.{enable_listener, complete_listener, set_communications}
use cactus_runner.Actions.Routes.{set_override}
use cactus_runner.Actions.Programs.{tag_program}
use cactus_runner.Actions.Controls.{tag_control}

module _ (S : Services) (Q : RunnerState → Type 0) where
  abbrev pub OnRunner : World S → Type 0
  OnRunner w = Q w.runner

  abbrev pub ClosedUnder : (ActiveTestProcedure → ActiveTestProcedure) → Type 0
  ClosedUnder f = (r : RunnerState) → Q r → Q (map_procedure f r)

  pub Preserves-call : {A : Type 0} (f : S.Env → Result A × S.Env) → Preserves OnRunner (call S f)
  unfolding call
  Preserves-call f = record { after = λ w h. h }

  pub Preserves-observe : {A : Type 0} (f : S.Env → A × S.Env) → Preserves OnRunner (observe S f)
  unfolding observe
  Preserves-observe f = record { after = λ w h. h }

  pub Preserves-time_now : Preserves OnRunner (time_now S)
  unfolding time_now
  Preserves-time_now = record { after = λ w h. h }

  pub Preserves-send : (c : Command) → Preserves OnRunner (send S c)
  unfolding send
  Preserves-send c = record { after = λ w h. h }

  pub Preserves-the_procedure : Preserves OnRunner (the_procedure S)
  unfolding the_procedure
  Preserves-the_procedure = record { after = λ w h. h }

  pub Preserves-update_procedure :
      (f : ActiveTestProcedure → ActiveTestProcedure)
      → ClosedUnder f
      → Preserves OnRunner (update_procedure S f)
  unfolding update_procedure
  Preserves-update_procedure f c = record { after = λ w h. c w.runner h }

  pub Preserves-update_runner :
      (f : RunnerState → RunnerState)
      → ((r : RunnerState) → Q r → Q (f r))
      → Preserves OnRunner (update_runner S f)
  unfolding update_runner
  Preserves-update_runner f c = record { after = λ w h. c w.runner h }

  -- The writes of the evaluator, the actions and the event engine.
  pub record Closed : Type 0 where
    pub random_uri : (key : String) → Preserves OnRunner (resolve_random_uri S key)
    pub enable : (l : Listener) → Preserves OnRunner (enable_listener S l)
    pub complete : (l : Listener) → Preserves OnRunner (complete_listener S l)
    pub warning : (w : WarningEntry) → ClosedUnder (add_warning w)
    pub finished : (path : String) → ClosedUnder (set_finished path)
    pub communications : (enabled : Bool) → ClosedUnder (set_communications enabled)
    pub override : (route proxy_to : String) → ClosedUnder (set_override route proxy_to)
    pub program_tag : (tag : String) (group : ℤ) → ClosedUnder (tag_program tag group)
    pub control_tag : (tag : String) (control : ℤ) → ClosedUnder (tag_control tag control)

pub ruleset world_rules =
    (Preserves-call, Preserves-observe, Preserves-time_now, Preserves-send, Preserves-the_procedure)

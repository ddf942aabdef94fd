-- ===== src/World.antt =====
-- The state that the handlers share (the keys of shared.py) beside the state of the services, and
-- the ways to read and write it. `active_test_procedure` of the code is one object that the
-- runner state holds; every write to it is a write to the copy here.
use cactus_runner.Prelude.{Option, none, some}
use cactus_runner.Exec.{Exception, external, Result, ok, err, Exec}
use cactus_runner.Definitions.{Time}
use cactus_runner.Models.{ActiveTestProcedure, InitialisedCertificates, RunnerState}
use cactus_runner.Services.{Services, Command}

pub record World (S : Services) : Type 0 where
  pub runner : RunnerState
  pub certs : InitialisedCertificates
  pub env : S.Env

abbrev pub Run : Services → Type 0 → Type 0
Run S A = Exec (World S) A

abbrev pub optional {ℓ} : {A : Type ℓ} → Exception → Option A → Result A
optional e none = err e
optional e (some a) = ok a

abbrev pub map_procedure : (ActiveTestProcedure → ActiveTestProcedure) → RunnerState → RunnerState
map_procedure f r = elim r.active_test_procedure [
  | none ↦ r
  | some p ↦ record r { active_test_procedure = some (f p) }
]

module _ (S : Services) where
  unfoldable pub call : {A : Type 0} → (S.Env → Result A × S.Env) → Run S A
  call f w = let (r, e) = f w.env in (r, record w { env = e })

  unfoldable pub observe : {A : Type 0} → (S.Env → A × S.Env) → Run S A
  observe f w = let (a, e) = f w.env in (ok a, record w { env = e })

  -- datetime.now(UTC)
  unfoldable pub time_now : Run S Time
  unfolding observe
  time_now = observe S.clock

  unfoldable pub send : Command → Run S (Unit {0})
  unfolding call
  send c = call (S.send c)

  -- The active test procedure of code that runs only while there is one.
  unfoldable pub the_procedure : Run S ActiveTestProcedure
  the_procedure w = (optional external w.runner.active_test_procedure, w)

  unfoldable pub update_procedure : (ActiveTestProcedure → ActiveTestProcedure) → Run S (Unit {0})
  update_procedure f w = (ok tt, record w { runner = map_procedure f w.runner })

  unfoldable pub update_runner : (RunnerState → RunnerState) → Run S (Unit {0})
  update_runner f w = (ok tt, record w { runner = f w.runner })

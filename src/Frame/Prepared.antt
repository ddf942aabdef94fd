-- ===== src/Frame/Prepared.antt =====
-- What is known of a procedure that `setup_test_procedure_from_request` returns.
use cactus_runner.Prelude.{
  String, Bool, some, [], ◌≡◌, refl, Option, none, true, false, if◌then◌else◌,
}
use cactus_runner.Prelude.Int.{ℤ}
use cactus_runner.Exec.{Exception, ok, err, pure, raise}
use cactus_runner.Exec.Returns.{
  Returns, WhenOk, Returns-bind, Returns-bind_returned, Returns-pure, Returns-raise,
  Returns-try_except, Returns-lift_bind,
}
use cactus_runner.Models.{ClientCertificateType, ActiveTestProcedure}
use cactus_runner.Services.{Services}
use cactus_runner.World.{Run, World, optional}
use cactus_runner.Handler.Replies.{RunRequest}
use cactus_runner.Handler.Initialise
use cactus_runner.Handler.Setup.{
  listeners_of, pending_steps, new_procedure, setup_test_procedure_from_request,
}

-- A procedure as it is before anything is enabled: its definition is one that a text stands for,
-- and its listeners and steps are those of the definition.
pub record IsPrepared (S : Services) (p : ActiveTestProcedure) : Type 0 where
  pub yaml : String
  pub loaded : S.test_procedure_from_yaml yaml ≡ some p.definition
  pub listening : p.listeners ≡ listeners_of p.definition.steps
  pub disabled : p.enabled_times ≡ []
  pub pending : p.step_status ≡ pending_steps p.definition.steps

module _ (S : Services) where
  from_optional :
      {A : Type 0} (e : Exception) (o : Option A) (a : A) → optional e o ≡ ok a → o ≡ some a
  from_optional e none a h = cc
  from_optional e (some b) a h = cc

  pub Returns-setup :
      (request : RunRequest) (client_lfdi : String) (aggregator_id : ℤ) (t : ClientCertificateType)
      → Returns {W = World S}
          (IsPrepared S)
          (setup_test_procedure_from_request S request client_lfdi aggregator_id t)
  unfolding setup_test_procedure_from_request new_procedure
  Returns-setup request client_lfdi aggregator_id t = Returns-lift_bind _ _ (λ definition loaded.
      Returns-bind _ _ (λ version. Returns-bind _ _ (λ now. Returns-bind _ _ (λ sfdi.
        Returns-pure _ (record {
          yaml = request.yaml_definition;
          loaded = from_optional _ _ definition loaded;
          listening = refl;
          disabled = refl;
          pending = refl;
        })))))

  caught :
      {A : Type 0} (G : A → Type 0) (b : Bool) (e : Exception)
      → Returns {W = World S} (WhenOk G) (if b then pure (err e) else raise e)
  caught G false e = Returns-raise e
  caught G true e = Returns-pure (err e) tt

  pub Returns-attempt :
      {A : Type 0} (G : A → Type 0) (catches : Exception → Bool) (m : Run S A)
      → Returns {W = World S} G m
      → Returns {W = World S} (WhenOk G) (Initialise.attempt S catches m)
  unfolding Initialise.attempt
  Returns-attempt G catches m h =
      Returns-try_except _ _ (Returns-bind_returned G m _ h (λ a g. Returns-pure (ok a) g))
        (λ e. caught G (catches e) e)

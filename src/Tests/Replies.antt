-- ===== src/Tests/Replies.antt =====
-- handler.py, main.py and action.py at concrete inputs.
use cactus_runner.Prelude.{true, false, [], ◌∷◌, some, ◌≡◌, ◌↔◌, refl}
use cactus_runner.Exec.{err, unresolvable_variable_error}
use cactus_runner.Models.{is_finished, Listener, ActiveTestProcedure}
use cactus_runner.World.{World}
use cactus_runner.Action.{apply_actions}
use cactus_runner.Action.Sequence.{Sequence, apply_actions-Sequence}
use cactus_runner.Handler.Transitions.{
  started, attempt_start_for_state-started, IsFinalized, finalize_handler-IsFinalized,
  finalize_handler-returns,
}
use cactus_runner.Handler.Requests.{
  by_itself, is_same_lfdi, IsAnswered, proxied_request_handler-IsAnswered,
}
use cactus_runner.Handler.Start.{attempt_start_for_state}
use cactus_runner.Handler.Control.{finalize_handler}
use cactus_runner.Exec.Total.{returns}
use cactus_runner.Frame.Fixed.{SameRun}
use cactus_runner.Tests.Samples
use cactus_runner.Tests.Samples.{
  services, world_with, waiting, finished, fresh, idle, procedure, config, request, run_request,
  unresolvable_action, action,
}

abbrev running : ActiveTestProcedure
running = record procedure { started_at = some 3 }

attempt_start_for_state-started_example :
    started (attempt_start_for_state services (world_with (some running))).0 ≡ false
    × SameRun
        (world_with (some running)).runner
        (attempt_start_for_state services (world_with (some running))).1.runner
attempt_start_for_state-started_example =
    attempt_start_for_state-started services (world_with (some running)) running 3 refl refl

finalize_handler-IsFinalized_example : IsFinalized services (finalize_handler services fresh)
finalize_handler-IsFinalized_example = finalize_handler-IsFinalized services fresh procedure refl

finalize_handler-returns_example : returns (finalize_handler services fresh).0 ≡ true
finalize_handler-returns_example =
    finalize_handler-returns services (record { each = λ n. refl })
      (λ path errors e. record { each = λ n. refl }) fresh

abbrev expecting_other : World services
expecting_other = record fresh { certs = record (fresh.certs) { client_lfdi = some "other" } }

abbrev enabling : Listener
enabling = record {
  step = "GET-DER";
  event = Samples.event "wait";
  actions = unresolvable_action ∷ [];
}

apply_actions-Sequence_example :
    (apply_actions services enabling fresh ≡ (err unresolvable_variable_error, fresh))
    ↔ Sequence services (unresolvable_action ∷ []) fresh (err unresolvable_variable_error) fresh
apply_actions-Sequence_example =
    apply_actions-Sequence services enabling fresh fresh (err unresolvable_variable_error)

proxied_request_handler-IsAnswered_example :
    IsAnswered services config
      (request "/dcap" "mine")
      expecting_other
      (is_same_lfdi (some "other") (some "mine"))
unfolding is_finished cactus_runner.Handler.Setup.new_procedure
proxied_request_handler-IsAnswered_example =
    proxied_request_handler-IsAnswered services config (request "/dcap" "mine") expecting_other
      procedure (some "mine") refl refl refl (by_itself refl refl refl)

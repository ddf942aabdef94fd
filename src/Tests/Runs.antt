-- ===== src/Tests/Runs.antt =====
-- Whole runs at concrete inputs.
use cactus_runner.Prelude.{some, ◌≡◌, refl}
use cactus_runner.Exec.{ok}
use cactus_runner.World.{World, time_now}
use cactus_runner.Event.{handle_event_trigger}
use cactus_runner.Finalize.{finish_active_test}
use cactus_runner.Finalize.Once.{finish_active_test-again}
use cactus_runner.Finalize.Complete.{IsFinished, finish_active_test-IsFinished}
use cactus_runner.Frame.Fixed.{SameRun, handle_event_trigger-SameRun}
use cactus_runner.Handler.Replies.{parsed}
use cactus_runner.Handler.Control.{proceed_handler}
use cactus_runner.Handler.Proceeding.{first_waiting, handled_by, proceed_handler-first_waiting}
use cactus_runner.Main.{initialise, respond, initial, started, step}
use cactus_runner.Main.Log.{IsLogged, Reachable-IsLogged}
use cactus_runner.Tests.Samples.{
  services, config, run_request, waiting, world_with, proceed_trigger, fresh, finished, procedure,
}

Reachable-IsLogged_example :
    IsLogged
      (respond services config
        (initialise (parsed run_request))
        (initial services config 0 5)).1.runner
Reachable-IsLogged_example =
    Reachable-IsLogged services config
      (respond services config (initialise (parsed run_request)) (initial services config 0 5)).1
      (step (initialise (parsed run_request)) (started 0 5))

handle_event_trigger-SameRun_example :
    SameRun
      (world_with (some waiting)).runner
      (handle_event_trigger services proceed_trigger (world_with (some waiting))).1.runner
handle_event_trigger-SameRun_example =
    handle_event_trigger-SameRun services proceed_trigger (world_with (some waiting))

abbrev over : World services
over = world_with (some finished)

finish_active_test-again_example :
    (finish_active_test services (finish_active_test services over).1).0 ≡ ok "final.zip"
    × (finish_active_test services (finish_active_test services over).1).1.runner
      ≡ (finish_active_test services over).1.runner
unfolding finish_active_test cactus_runner.Exec.◌>>=◌ cactus_runner.World.time_now
finish_active_test-again_example =
    finish_active_test-again services over (finish_active_test services over).1 "final.zip" refl

finish_active_test-IsFinished_example : IsFinished services (finish_active_test services fresh)
unfolding cactus_runner.Handler.Setup.new_procedure
finish_active_test-IsFinished_example =
    finish_active_test-IsFinished services (record { each = λ n. refl })
      (λ path contents. record { each = λ n. refl }) fresh procedure refl refl

proceed_handler-first_waiting_example :
    proceed_handler services (world_with (some waiting))
    ≡ handled_by services
        (first_waiting waiting waiting.listeners)
        (time_now services (world_with (some waiting))).1
unfolding first_waiting cactus_runner.Models.enabled_time cactus_runner.Models.is_finished
    cactus_runner.Handler.Setup.new_procedure cactus_runner.Prelude.Dict.get
proceed_handler-first_waiting_example =
    proceed_handler-first_waiting services (world_with (some waiting)) waiting refl refl refl

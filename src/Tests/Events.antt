-- ===== src/Tests/Events.antt =====
-- event.py at concrete inputs.
use cactus_runner.Prelude.{
  ℕ, String, Bool, true, false, List, [], ◌∷◌, Option, none, some, ◌≡◌, ◌≤◌, ◌↔◌, refl, arith,
  length, leb, ◌+◌, ◌*◌, eq_refl,
}
use cactus_runner.Prelude.Strings
use cactus_runner.Exec.{ok, for_each, ◌>>=◌}
use cactus_runner.Models.{is_finished, enabled_time}
use cactus_runner.World.{the_procedure}
use cactus_runner.Action.{apply_actions}
use cactus_runner.Check.{all_checks_passing, first_failing_check}
use cactus_runner.Event.{
  scan, is_fired, is_listener_triggerable, enabled_triggers, timed_triggers, handle_event_trigger,
  client_request_before, client_request_after, request_triggers, elapsed_at_least, is_first_page,
}
use cactus_runner.Event.Rounds.{Round, scan-Round}
use cactus_runner.Event.Fired.{Sublist, handle_event_trigger-Sublist}
use cactus_runner.Tests.Samples.{services, world_with, waiting, proceed_trigger}

scan-Round_example :
    (scan services proceed_trigger waiting.listeners (world_with (some waiting))
      ≡ (ok waiting.listeners, world_with (some waiting)))
    ↔ Round services proceed_trigger waiting.listeners
        (world_with (some waiting))
        waiting.listeners
        (world_with (some waiting))
scan-Round_example =
    scan-Round services proceed_trigger waiting.listeners waiting.listeners
      (world_with (some waiting)) (world_with (some waiting))

handle_event_trigger-Sublist_example :
    Sublist waiting.listeners waiting.listeners
    × (proceed_trigger.single_listener ≡ true → length waiting.listeners ≤ 1)
unfolding handle_event_trigger scan is_fired is_listener_triggerable the_procedure enabled_time
    enabled_triggers timed_triggers all_checks_passing first_failing_check apply_actions for_each
    is_finished ◌>>=◌ cactus_runner.Handler.Setup.new_procedure cactus_runner.Prelude.Dict.get
    Strings.ends_with cactus_runner.Event.on_proceed
handle_event_trigger-Sublist_example =
    handle_event_trigger-Sublist services proceed_trigger waiting waiting.listeners
      (world_with (some waiting)) (world_with (some waiting)) refl refl refl

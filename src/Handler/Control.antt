-- ===== src/Handler/Control.antt =====
-- `finalize_handler` and `proceed_handler`.
use cactus_runner.Prelude.{String, concat, Bool, true, false, List, [], ◌∷◌, none, if◌then◌else◌}
use cactus_runner.Exec.{Exception, on_option, pure, gets, try_except, ◌>>=◌, ◌>>◌}
use cactus_runner.Models.{Listener, is_finished, RunnerState}
use cactus_runner.Services.{Services, commit}
use cactus_runner.World.{World, Run, send, time_now, update_runner}
use cactus_runner.Finalize.{finish_active_test, safely_write_error_zip}
use cactus_runner.Event.{generate_proceed_trigger, handle_event_trigger}
use cactus_runner.Handler.Replies.{plain, file, proceed_response, Reply, reply}

unfoldable pub clear_runner : RunnerState → RunnerState
clear_runner r = record r { active_test_procedure = none; request_history = [] }

unfoldable pub is_handled : List Listener → Bool
is_handled [] = false
is_handled (_ ∷ _) = true

module _ (S : Services) where
  abbrev pub error_archive : Exception → Run S String
  error_archive e =
      safely_write_error_zip S (concat "Exception generating zip: " (S.text_of_exception e) ∷ [])

  unfoldable pub finalize_handler : Run S Reply
  finalize_handler = do
    active ← gets (λ (w : World S). w.runner.active_test_procedure)
    on_option active
        (pure (
          reply 400
            (plain "ERROR: Unable to finalize test procedure. No test procedure in progress.")))
        (λ p. do
          path ← try_except (finish_active_test S) (λ e. error_archive e)
          update_runner S clear_runner
          generated ← time_now S
          pure (reply 200 (file path)))

  unfoldable pub proceed_unfinished : Run S Reply
  proceed_unfinished = do
    trigger ← generate_proceed_trigger S
    handled ← handle_event_trigger S trigger
    send S commit
    pure (reply 200 (proceed_response (is_handled handled)))

  unfoldable pub proceed_handler : Run S Reply
  proceed_handler = do
    active ← gets (λ (w : World S). w.runner.active_test_procedure)
    on_option active
        (pure (reply 400 (plain "'Proceed' signal ignored. No active test procedure.")))
        (λ p.
          if is_finished p
          then pure
              (reply 410 (plain "'Proceed' signal ignored. Test procedure has been finalised."))
          else proceed_unfinished)

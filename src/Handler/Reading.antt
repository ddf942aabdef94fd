-- ===== src/Handler/Reading.antt =====
-- The handlers that answer from what is there: `health_handler`, `status_handler`,
-- `get_request_raw_data_handler`, `list_request_ids_handler` and `csipaus_wellknown_handler`, and
-- health.py.
use cactus_runner.Prelude.{String, Bool, true, false, Option, none, some, length, if◌then◌else◌}
use cactus_runner.Prelude.Int.{ℤ, negsuc}
use cactus_runner.Exec.{ok, err, index_error, pure, lift, gets, try_except, on_option, ◌>>=◌}
use cactus_runner.Definitions.{text}
use cactus_runner.Models.{last_client_interaction}
use cactus_runner.Services.{Services}
use cactus_runner.World.{World, Run, call, optional}
use cactus_runner.Status.Active.{get_active_runner_status, get_runner_status}
use cactus_runner.RequestArchive.{Directory, read_request_response_files, get_all_request_ids}
use cactus_runner.Handler.Replies.{
  plain, empty, runner_status, request_data, request_list, Reply, reply, Config,
}

unfoldable pub csipaus_wellknown_handler : Reply
csipaus_wellknown_handler = reply 410 (plain "CSIP-Aus v1.2 has no .well-known file.")

module _ (S : Services) where
  unfoldable pub is_db_healthy : Run S Bool
  is_db_healthy = try_except (do count ← call S S.count_aggregators; pure true) (λ e. pure false)

  unfoldable pub is_admin_api_healthy : Run S Bool
  is_admin_api_healthy = try_except (call S S.get_aggregators) (λ e. pure false)

  unfoldable pub health_handler : Run S Reply
  health_handler = do
    database ← is_db_healthy
    healthy ← if database then is_admin_api_healthy else pure false
    pure (reply (if healthy then 200 else 503) empty)

  -- The status of the last 15 minutes.
  unfoldable pub status_handler : Config → Run S Reply
  status_handler config = do
    runner ← gets (λ (w : World S). w.runner)
    interaction ← lift (optional index_error (last_client_interaction runner.client_interactions))
    status ← on_option runner.active_test_procedure (get_runner_status S interaction) (λ p.
        get_active_runner_status S S.interval_trees p runner.request_history interaction (some 15))
    pure (reply 200 (runner_status status))

  module _ (D : Directory) where
    abbrev content_reply : ℤ → Option String × Option String → Reply
    content_reply request_id (none, none) = reply 404 empty
    content_reply request_id (request, response) =
        reply 200 (request_data request_id request response)

    abbrev bad_id : Reply
    bad_id = reply 400 (request_data (negsuc 0) none none)

    -- The id is part of the path; `int` raises nothing but a ValueError for a text.
    unfoldable pub get_request_raw_data_handler : (match_info : Option String) → D.State → Reply
    unfolding read_request_response_files
    get_request_raw_data_handler none d = bad_id
    get_request_raw_data_handler (some id) d = elim (S.int_of (text id)) [
      | err e ↦ bad_id
      | ok request_id ↦ content_reply request_id (read_request_response_files S D request_id d)
    ]

    unfoldable pub list_request_ids_handler : D.State → Reply
    unfolding get_all_request_ids
    list_request_ids_handler d =
        let request_ids = get_all_request_ids S D d in
        reply 200 (request_list request_ids (length request_ids))

-- ===== src/Status/Active.antt =====
-- status.py: the timeline of a status, and the status of a run.
use cactus_runner.Prelude.{
  ℕ, suc, ◌+◌, ◌-◌, ◌*◌, ◌/◌, Bool, List, [], ◌∷◌, Option, none, some, leb, max, keep,
  if◌then◌else◌,
}
use cactus_runner.Prelude.Int.{ℤ, pos, neg_ℤ}
use cactus_runner.Prelude.Dict
use cactus_runner.Exec.{pure, lift, try_except, on_option, ◌>>=◌}
use cactus_runner.Definitions.{Time}
use cactus_runner.Models.{ActiveTestProcedure, ClientInteraction, RequestEntry}
use cactus_runner.Services.{Services}
use cactus_runner.World.{Run, call, observe, time_now}
use cactus_runner.EnvoyCommon.{Query}
use cactus_runner.Timeline.{TimelineDataStream, duration_to_label}
use cactus_runner.Timeline.Trees.{IntervalTrees}
use cactus_runner.Timeline.Streams.{generate_timeline}
use cactus_runner.Status.Metadata.{get_end_device_metadata}
use cactus_runner.Status.Report.{
  DataStreamPoint, TimelineDataStreamEntry, DeviceMax, TimelineStatus, RunnerStatus,
}
use cactus_runner.Status.Summaries.{
  step_statuses, status_set_max_w, device_max, get_criteria_summary,
  get_precondition_checks_summary,
}
use cactus_runner.Status.{get_current_instructions, get_runner_status_summary}

-- timedelta(minutes=…); a time of the program is later than this span after the epoch
abbrev minutes : ℕ → Time
minutes n = n * 60000000

-- (int((now - basis).total_seconds()) // interval_seconds) * interval_seconds
unfoldable pub whole_intervals : (now basis : Time) (interval_seconds : ℕ) → ℤ
whole_intervals now basis interval_seconds =
    if leb basis now
    then pos ((now - basis) / 1000000 / interval_seconds * interval_seconds)
    else neg_ℤ (
        pos (
          ((basis - now) / 1000000 + (interval_seconds - 1)) / interval_seconds * interval_seconds))

module _ (S : Services) where
  abbrev points_from : (index interval_seconds : ℕ) → List (Option ℤ) → List DataStreamPoint
  points_from index interval_seconds [] = []
  points_from index interval_seconds (watts ∷ rest) =
      record { watts = watts; offset = duration_to_label S (pos (index * interval_seconds)) }
      ∷ points_from (suc index) interval_seconds rest

  abbrev stream_entries :
      (interval_seconds : ℕ) → List TimelineDataStream → List TimelineDataStreamEntry
  stream_entries interval_seconds [] = []
  stream_entries interval_seconds (stream ∷ rest) =
      record {
        label = stream.label;
        points = points_from 0 interval_seconds stream.offset_watt_values;
        stepped = stream.stepped;
        dashed = stream.dashed;
      }
      ∷ stream_entries interval_seconds rest

module _ (S : Services) (T : IntervalTrees) where
  unfoldable pub get_timeline_data_streams :
      (basis : Time) (interval_seconds : ℕ) (end : Time) → Query S (List TimelineDataStreamEntry)
  unfolding duration_to_label
  get_timeline_data_streams basis interval_seconds end = do
    timeline ← generate_timeline S T basis interval_seconds (some end)
    pure (stream_entries S interval_seconds timeline.data_streams)

  -- No earlier than the start of the crop.
  abbrev cropped_basis : (now basis : Time) → Option ℕ → Time
  cropped_basis now basis none = basis
  cropped_basis now basis (some crop) = max basis (now - minutes crop)

  abbrev timeline_from :
      (now basis : Time) → (set_max_w : Option ℤ) → DeviceMax → Query S TimelineStatus
  timeline_from now basis set_max_w limits = do
    streams ← get_timeline_data_streams basis 20 (now + minutes 2)
    pure (record {
      data_streams = streams;
      set_max_w = set_max_w;
      now_offset = duration_to_label S (whole_intervals now basis 20);
      device_max = limits;
    })

  unfoldable pub status_timeline :
      (now : Time) (crop_minutes : Option ℕ)
      → ActiveTestProcedure
      → (set_max_w : Option ℤ) → DeviceMax
      → Run S (Option TimelineStatus)
  unfolding whole_intervals
  status_timeline now crop_minutes p set_max_w limits =
      try_except
        (on_option p.started_at (pure none) (λ started. do
          timeline ←
              call S (timeline_from now (cropped_basis now started crop_minutes) set_max_w limits)
          pure (some timeline)))
        (λ e. pure none)

  abbrev is_recent : (cutoff : Time) → RequestEntry → Bool
  is_recent cutoff entry = leb cutoff entry.timestamp

  unfoldable pub cropped_history :
      (crop_minutes : Option ℕ) → List RequestEntry → Run S (List RequestEntry)
  cropped_history none history = pure history
  cropped_history (some crop) history = do
    now ← time_now S
    pure (keep (is_recent (now - minutes crop)) history)

  -- The checks write nothing of the procedure but random URIs, so what is read of it afterwards is
  -- what it was.
  unfoldable pub get_active_runner_status :
      ActiveTestProcedure
      → List RequestEntry
      → ClientInteraction
      → (crop_minutes : Option ℕ) → Run S RunnerStatus
  get_active_runner_status p request_history last_client_interaction crop_minutes = do
    now ← time_now S
    step_status ← step_statuses S now p p.step_status
    set_max_w ← status_set_max_w S
    limits ← device_max S set_max_w
    timeline ← status_timeline now crop_minutes p set_max_w limits
    metadata ← call S (get_end_device_metadata S set_max_w)
    history ← cropped_history crop_minutes request_history
    timestamp ← time_now S
    log ← observe S S.log_envoy
    criteria ← get_criteria_summary S [] p
    precondition_checks ← get_precondition_checks_summary S [] p
    instructions ← lift (get_current_instructions p)
    pure (record {
      timestamp_status = timestamp;
      timestamp_initialise = some p.initialised_at;
      timestamp_start = p.started_at;
      csip_aus_version = p.csip_aus_version;
      log_envoy = log;
      test_procedure_name = some p.name;
      last_client_interaction = last_client_interaction;
      criteria = criteria;
      precondition_checks = precondition_checks;
      instructions = instructions;
      status_summary = get_runner_status_summary S p.step_status;
      step_status = step_status;
      request_history = history;
      timeline = timeline;
      end_device_metadata = metadata;
      warnings = Dict.values p.warnings;
    })

module _ (S : Services) where
  unfoldable pub get_runner_status : ClientInteraction → Run S RunnerStatus
  get_runner_status last_client_interaction = do
    now ← time_now S
    log ← observe S S.log_envoy
    pure (record {
      timestamp_status = now;
      timestamp_initialise = none;
      timestamp_start = none;
      csip_aus_version = "";
      log_envoy = log;
      test_procedure_name = none;
      last_client_interaction = last_client_interaction;
      criteria = [];
      precondition_checks = [];
      instructions = none;
      status_summary = "No test procedure running";
      step_status = [];
      request_history = [];
      timeline = none;
      end_device_metadata = none;
      warnings = [];
    })

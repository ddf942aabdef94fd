-- ===== src/Finalize.antt =====
-- finalize.py: `finish_active_test`, which writes out a test. The status, the checks, the timeline and
-- the reporting data may each raise; the exception is then an error in the archive. What writes the
-- archive's files is in Finalize/Archive, over a directory.
pub mod Once
pub mod Complete
pub mod Archive
pub mod Archiving
use cactus_runner.Prelude.{
  ℕ, ◌+◌, ◌/◌, String, true, false, List, [], ◌∷◌, ◌++◌, Option, none, some, length, concat, map,
  keep, not,
}
use cactus_runner.Prelude.Int.{pos}
use cactus_runner.Prelude.Dict
use cactus_runner.Prelude.Dict.{Dict}
use cactus_runner.Prelude.Strings.{texts}
use cactus_runner.Exec.{
  on_option, index_error, no_active_test_procedure_error, pure, raise, lift, gets, try_except,
  ◌>>=◌, ◌>>◌,
}
use cactus_runner.Definitions.{Time, of_int}
use cactus_runner.Models.{
  ActiveTestProcedure, RunnerState, RequestEntry, CheckResult, WarningEntry,
  last_client_interaction,
}
use cactus_runner.Services.{Services, Site, SiteReadingType}
use cactus_runner.World.{World, Run, optional, call, time_now, the_procedure, update_procedure}
use cactus_runner.Warning.{run_post_test_analysers}
use cactus_runner.SoftChecker.{fail, passed_with}
use cactus_runner.Check.{determine_check_results}
use cactus_runner.Timeline.{Timeline}
use cactus_runner.Timeline.Streams.{generate_timeline}
use cactus_runner.EnvoyCommon.Readings.{get_reading_counts_grouped_by_reading_type}
use cactus_runner.Readings.{Frames, mandatory_reading_specifiers, get_readings}
use cactus_runner.Status.Active.{get_active_runner_status}
use cactus_runner.Finalize.Archive.{cap_request_history, Contents}

unfoldable pub set_finished : String → ActiveTestProcedure → ActiveTestProcedure
set_finished path p = record p { finished_zip_path = some path }

-- ReportingData, before its parts are made into the records that are serialised.
pub record ReportingData : Type 0 where
  pub created_at : Time
  pub runner_state : RunnerState
  pub check_results : Dict CheckResult
  pub readings : Frames
  pub reading_counts : List (SiteReadingType × ℕ)
  pub sites : List Site
  pub timeline : Option Timeline
  pub warnings : List WarningEntry

-- `if not test_timeline.data_streams`
abbrev shown_timeline : Timeline → Option Timeline
shown_timeline t = elim t.data_streams [ [] ↦ none | _ ∷ _ ↦ some t ]

-- The numbers of errors of the requests that have any.
unfoldable pub xsd_error_counts : List RequestEntry → List ℕ
xsd_error_counts [] = []
xsd_error_counts (entry ∷ rest) = elim entry.body_xml_errors [
  | [] ↦ xsd_error_counts rest
  | e ∷ errors ↦ length (e ∷ errors) ∷ xsd_error_counts rest
]

abbrev sum : List ℕ → ℕ
sum [] = 0
sum (n ∷ rest) = n + sum rest

module _ (S : Services) where
  abbrev number : ℕ → String
  number n = S.format (of_int (pos n))

  abbrev xsd_result : List ℕ → CheckResult
  xsd_result [] = passed_with "No XSD errors detected in any requests."
  xsd_result (n ∷ counts) = fail (
      texts (
        "Detected "
        ∷ number (sum (n ∷ counts))
        ∷ " xsd errors over "
        ∷ number (length (n ∷ counts))
        ∷ " request(s)."
        ∷ []))

  -- A part of the archive, or the error that stands for it.
  abbrev pub part : {A : Type 0} → (message : String) → Run S A → Run S (Option A × List String)
  part message m =
      try_except (do made ← m; pure (some made, []))
        (λ e. pure (none, concat message (S.text_of_exception e) ∷ []))

  unfoldable pub status_summary : List RequestEntry → Run S (Option String × List String)
  status_summary capped_request_history = part "Failure generating active runner status: " (do
    p ← the_procedure S
    runner ← gets (λ (w : World S). w.runner)
    interaction ← lift (optional index_error (last_client_interaction runner.client_interactions))
    status ← get_active_runner_status S S.interval_trees p capped_request_history interaction none
    lift (S.to_json status))

  unfoldable pub criteria_results :
      List RequestEntry → Run S (Option (Dict CheckResult) × List String)
  criteria_results request_history = do
    p ← the_procedure S
    on_option p.definition.criteria (pure (none, [])) (λ checks.
        part "Failed to determine check results: "
          (determine_check_results S request_history (some checks)))

  unfoldable pub test_timeline : (now : Time) → Run S (Option Timeline × List String)
  test_timeline now = do
    p ← the_procedure S
    on_option p.started_at (pure (none, [])) (λ started. do
      made ←
          part "Failed to generate test timeline: "
            (call S (generate_timeline S S.interval_trees started 20 (some now)))
      pure (elim made.0 [ none ↦ none | some t ↦ shown_timeline t ], made.1))

  unfoldable pub generate_json_reporting_data : ReportingData → Run S (Option String × List String)
  generate_json_reporting_data report =
      part "Error generating reporting data: " (lift (S.to_json report))

  -- What the tables hold; loading them may raise too.
  unfoldable pub reporting_data :
      (capped_request_history : List RequestEntry)
      → Dict CheckResult
      → Option Timeline
      → Run S (Option (Option String × List String) × List String)
  unfolding generate_json_reporting_data
  reporting_data capped_request_history check_results timeline =
      part "Failed to generate reporting data: " (do
        sites ← call S S.sites
        readings ← call S (get_readings S mandatory_reading_specifiers)
        counts ← call S (get_reading_counts_grouped_by_reading_type S)
        runner ← gets (λ (w : World S). w.runner)
        p ← the_procedure S
        created_at ← time_now S
        generate_json_reporting_data (record {
          created_at = created_at;
          runner_state = record runner { request_history = capped_request_history };
          check_results = check_results;
          readings = readings;
          reading_counts = counts;
          sites = sites;
          timeline = timeline;
          warnings = Dict.values p.warnings;
        }))

  abbrev all_results : Option (Dict CheckResult) → CheckResult → Dict CheckResult
  all_results none xsd = Dict.set "all-requests-xsd-valid" xsd []
  all_results (some results) xsd = Dict.set "all-requests-xsd-valid" xsd results

  abbrev reported : Option (Option String × List String) → Option String × List String
  reported none = (none, [])
  reported (some made) = made

  abbrev prefix_of : {A : Type 0} → Option A → Option String
  prefix_of none = none
  prefix_of (some a) = some "ReportingData_v1"

  unfoldable pub write_and_finish : (now : Time) → Run S String
  unfolding xsd_error_counts
  write_and_finish now = do
    request_history ← gets (λ (w : World S). w.runner.request_history)
    let capped = cap_request_history S.max_request_pairs request_history
    run_post_test_analysers S
    summary ← status_summary capped
    results ← criteria_results request_history
    timeline ← test_timeline now
    report ←
        reporting_data capped
          (all_results results.0 (xsd_result (xsd_error_counts request_history))) timeline.0
    path ← call S S.mkstemp
    p ← the_procedure S
    call S (
        S.write_archive {A = Contents} path (record {
          json_status_summary = summary.0;
          json_reporting_data = (reported report.0).0;
          log_file_paths =
              "/shared/envoy.server.log" ∷ "/shared/envoy.admin.log" ∷ "/shared/cactus_runner.log"
              ∷ [];
          errors = summary.1 ++ (results.1 ++ (timeline.1 ++ ((reported report.0).1 ++ report.1)));
          filename_infix = texts ("_" ∷ number (now / 1000000) ∷ "_" ∷ p.name ∷ []);
          reporting_data_filename_prefix = prefix_of report.0;
          warnings = Dict.values p.warnings;
        }))
    update_procedure S (set_finished path)
    pure path

  unfoldable pub finish_active_test : Run S String
  unfolding write_and_finish
  finish_active_test = do
    now ← time_now S
    active ← gets (λ (w : World S). w.runner.active_test_procedure)
    on_option active (raise no_active_test_procedure_error)
        (λ p. on_option p.finished_zip_path (write_and_finish now) (λ path. pure path))

  -- The archive of a test that cannot be written out.
  unfoldable pub safely_write_error_zip : (errors : List String) → Run S String
  safely_write_error_zip errors = do
    path ← call S S.mkstemp
    try_except (call S (S.write_error_zip path errors))
        (λ e. call S (S.write_failure path errors e))
    pure path

-- ===== src/Finalize/Archive.antt =====
-- finalize.py: the files of the final archive.
use cactus_runner.Prelude.{
  ℕ, ◌-◌, length, zero, suc, String, List, [], ◌∷◌, ◌++◌, Option, concat, leb, map, if◌then◌else◌,
}
use cactus_runner.Prelude.Strings.{texts, join, split}
use cactus_runner.Exec.{
  Exception, external, Exec, Result, ok, err, pure, raise, lift, try_except, on_option, ◌>>=◌, ◌>>◌,
}
use cactus_runner.Models.{WarningEntry, RequestEntry}
use cactus_runner.Services.{Services}
use cactus_runner.RequestArchive.{Directory, copy_request_response_files_to_archive}

abbrev drop_first {ℓ} : {A : Type ℓ} → ℕ → List A → List A
drop_first n [] = []
drop_first n (x ∷ xs) = elim n [ zero ↦ x ∷ xs | suc k ↦ drop_first k xs ]

-- [-n:], for no more than there are; [-0:] is all.
abbrev last_entries {ℓ} : {A : Type ℓ} → ℕ → List A → List A
last_entries zero xs = xs
last_entries (suc n) xs = drop_first (length xs - suc n) xs

-- `env.MAX_REQUEST_PAIRS` is the first argument.
unfoldable pub cap_request_history : ℕ → List RequestEntry → List RequestEntry
cap_request_history max_request_pairs request_history =
    if leb (length request_history) max_request_pairs
    then request_history
    else last_entries max_request_pairs request_history

abbrev last_of : String → List String → String
last_of s [] = s
last_of s (t ∷ rest) = last_of t rest

abbrev all_but_last : List String → List String
all_but_last [] = []
all_but_last (s ∷ []) = []
all_but_last (s ∷ t ∷ rest) = s ∷ all_but_last (t ∷ rest)

abbrev without_extension : (name : String) → List String → String
without_extension name [] = name
without_extension name (s ∷ []) = s
without_extension name (s ∷ t ∷ rest) = join "." (all_but_last (s ∷ t ∷ rest))

-- Path(…).name of a path that does not end in a slash
unfoldable pub get_file_name_no_extension : (file_path : String) → String
get_file_name_no_extension file_path =
    let name = last_of "" (split b'/' file_path) in without_extension name (split b'.' name)

-- A run of pg_dump, with the file that it wrote, if any: its exit status is not looked at.
pub data DumpRun : Type 0 where
  ran : Option String → DumpRun
  not_installed failed : Exception → DumpRun

-- What the archive is made from: the log files, as bytes, the text of an exception, the name of the
-- database, and the tool that dumps it.
pub record Sources : Type 0 where
  pub max_log_file_bytes : ℕ
  pub getsize : String → Result ℕ
  pub copyfile : String → Result String
  pub copy_from : (offset : ℕ) → String → Result String
  pub exception_text : Exception → String
  pub postgres_dsn : Option String
  pub pg_dump : (dsn : String) → (dump_args : List String) → DumpRun

pub record Contents : Type 0 where
  pub json_status_summary : Option String
  pub json_reporting_data : Option String
  pub log_file_paths : List String
  pub errors : List String
  pub filename_infix : String
  pub reporting_data_filename_prefix : Option String
  pub warnings : List WarningEntry

module _ (F : Sources) where
  -- A log, or the end of one that is too large. The file may grow between the two calls: what is
  -- logged of a large file goes to the runner's own log.
  unfoldable pub log_content : (log_file_path : String) → Result String
  log_content log_file_path = elim (F.getsize log_file_path) [
    | err e ↦ err e
    | ok file_size ↦
        if leb file_size F.max_log_file_bytes
        then F.copyfile log_file_path
        else F.copy_from (file_size - F.max_log_file_bytes) log_file_path
  ]

module _ (S : Services) (F : Sources) (A : Directory) where
  abbrev warning_block : WarningEntry → String
  warning_block w = texts (
      "Type: "
      ∷ w.type
      ∷ "\nTimestamp: "
      ∷ S.isoformat w.timestamp
      ∷ "\n"
      ∷ w.description
      ∷ "\n\n"
      ∷ w.message
      ∷ [])

  unfoldable pub format_warnings_txt : List WarningEntry → String
  format_warnings_txt warnings = join "\n\n---\n\n" (map warning_block warnings)

  abbrev pub write_file : (name content : String) → Exec A.State (Unit {0})
  write_file name content archive = A.write name content archive

  abbrev pub write_warnings :
      (filename_infix : String) → List WarningEntry → Exec A.State (Unit {0})
  write_warnings filename_infix [] = pure tt
  write_warnings filename_infix (w ∷ warnings) =
      write_file (texts ("warnings" ∷ filename_infix ∷ ".txt" ∷ []))
        (format_warnings_txt (w ∷ warnings))

  abbrev pub write_reporting : Contents → Exec A.State (Unit {0})
  write_reporting c = on_option c.json_reporting_data (pure tt) (λ report.
      on_option c.reporting_data_filename_prefix (pure tt)
        (λ prefix. write_file (texts (prefix ∷ c.filename_infix ∷ ".json" ∷ [])) report))

  abbrev pub log_error : (path : String) → Exception → List String
  log_error path e =
      texts ("Error fetching cactus logs for " ∷ path ∷ ": " ∷ F.exception_text e ∷ []) ∷ []

  -- The error of a log that could not be copied.
  unfoldable pub copy_log : (filename_infix path : String) → Exec A.State (List String)
  copy_log filename_infix path =
      try_except
        (do
          content ← lift (log_content F path)
          write_file (texts (get_file_name_no_extension path ∷ filename_infix ∷ ".log" ∷ []))
              content
          pure [])
        (λ e. pure (log_error path e))

  unfoldable pub copy_logs : (filename_infix : String) → List String → Exec A.State (List String)
  copy_logs filename_infix [] = pure []
  copy_logs filename_infix (path ∷ paths) = do
    error ← copy_log filename_infix path
    errors ← copy_logs filename_infix paths
    pure (error ++ errors)

  -- What a run leaves, and its errors.
  abbrev pub dump_written : (name : String) → DumpRun → Exec A.State (List String)
  dump_written name (ran written) = do on_option written (pure tt) (write_file name); pure []
  dump_written name (not_installed e) =
      pure (concat "Error generating database dump: " (F.exception_text e) ∷ [])
  dump_written name (failed e) = raise e

  unfoldable pub dump : (dsn name : String) (dump_args : List String) → Exec A.State (List String)
  dump dsn name dump_args = dump_written name (F.pg_dump dsn dump_args)

  abbrev pub write_errors : List String → Exec A.State (Unit {0})
  write_errors [] = pure tt
  write_errors (e ∷ errors) = write_file "generation-errors.txt" (join "\n" (e ∷ errors))

  abbrev pub packed :
      {Zip : Type 0} → (A.State → Result Zip) → Result (Unit {0}) × A.State → Result Zip
  packed make_archive (ok tt, archive_dir) = make_archive archive_dir
  packed make_archive (err e, archive_dir) = err e

  module _ (D : Directory) (storage : D.State) where
    abbrev pub copy_requests : Exec A.State (Unit {0})
    copy_requests archive = (ok tt, copy_request_response_files_to_archive S D A storage archive)

    unfoldable pub write_contents : Contents → Exec A.State (Unit {0})
    unfolding copy_log copy_logs dump
    write_contents c = do
      on_option c.json_status_summary (pure tt)
          (write_file (texts ("CactusTestProcedureSummary" ∷ c.filename_infix ∷ ".json" ∷ [])))
      write_reporting c
      write_warnings c.filename_infix c.warnings
      log_errors ← copy_logs c.filename_infix c.log_file_paths
      copy_requests
      dsn ← on_option F.postgres_dsn (raise external) (λ dsn. pure dsn)
      schema_errors ←
          dump dsn (texts ("EnvoyDBSchema" ∷ c.filename_infix ∷ ".dump" ∷ []))
            ("--schema-only" ∷ "--no-owner" ∷ "--no-privileges" ∷ [])
      data_errors ←
          dump dsn (texts ("EnvoyDB" ∷ c.filename_infix ∷ ".dump" ∷ []))
            ("--data-only" ∷ "--inserts" ∷ "--column-inserts" ∷ [])
      write_errors (c.errors ++ (log_errors ++ (schema_errors ++ data_errors)))

    -- In a temporary directory, which is packed in the end.
    unfoldable pub write_zip_to_file :
        {Zip : Type 0}
        → Result A.State
        → (make_archive : A.State → Result Zip) → Contents
        → Result Zip
    write_zip_to_file (err e) make_archive c = err e
    write_zip_to_file (ok archive_dir) make_archive c =
        packed make_archive (write_contents c archive_dir)

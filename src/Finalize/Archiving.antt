-- ===== src/Finalize/Archiving.antt =====
-- finalize.py: that the final archive is written, and how large the logs in it are.
use cactus_runner.Prelude.{
  ◌++◌, concat, sym, subst, Option, none, Option-cases, ℕ, ◌+◌, ◌-◌, ◌≤◌, String, Bool, true, false,
  List, [], ◌∷◌, some, ◌≡◌, refl, arith, leb, Bool-cases, inl, inr,
}
use cactus_runner.Prelude.Strings
use cactus_runner.Prelude.Strings.{texts, join}
use cactus_runner.Exec.{
  Exec, Result, ok, err, external, continue, pure, raise, lift, try_except, on_option, ◌>>=◌, ◌>>◌,
}
use cactus_runner.Exec.Returns.{Result-cases}
use cactus_runner.Models.{WarningEntry}
use cactus_runner.Services.{Services}
use cactus_runner.RequestArchive.{Directory}
use cactus_runner.Finalize.Archive.{
  DumpRun, ran, not_installed, failed, Sources, Contents, log_content, write_file, write_warnings,
  write_reporting, copy_logs, dump, dump_written, write_errors, write_contents, packed, log_error,
  copy_log, write_zip_to_file,
}

-- What copying a file, and its end, give: the bytes that it had when its size was taken, and those
-- that were added to it since.
pub record CopiesFiles (F : Sources) (added : String → ℕ) : Type 0 where
  pub whole :
      (path content : String) (size : ℕ)
      → F.getsize path ≡ ok size
      → F.copyfile path ≡ ok content
      → Strings.length content ≡ size + added path
  pub end :
      (path content : String) (size offset : ℕ)
      → F.getsize path ≡ ok size
      → offset ≤ size
      → F.copy_from offset path ≡ ok content
      → Strings.length content + offset ≡ size + added path

same_ok : {A : Type 0} {a b : A} → ok a ≡ ok b → a ≡ b
same_ok e = cc

-- A log in the archive has at most as many bytes as are allowed, and those that were added to the
-- file after its size was taken, where a copy of a file has the bytes of the file.
pub log_content-length :
    (F : Sources) (added : String → ℕ) (copies : CopiesFiles F added) (path content : String)
    → log_content F path ≡ ok content
    → Strings.length content ≤ F.max_log_file_bytes + added path
unfolding log_content
log_content-length F added copies path content h = elim (Result-cases (F.getsize path)) [
  | inr (e, g) ↦ ground arith
  | inl (size, g) ↦ elim (Bool-cases (leb size F.max_log_file_bytes)) [
    | inl small ↦ ground (arith, copies.whole path content size g)
    | inr large ↦ ground (arith, copies.end path content size (size - F.max_log_file_bytes) g)
  ]
]

-- The errors of the logs that cannot be read, of a dump that did not run, and all that the archive
-- has to report.
abbrev unread : Sources → (path : String) → Result String → List String
unread F path (ok content) = []
unread F path (err e) =
    texts ("Error fetching cactus logs for " ∷ path ∷ ": " ∷ F.exception_text e ∷ []) ∷ []

log_errors : Sources → List String → List String
log_errors F [] = []
log_errors F (path ∷ paths) = unread F path (log_content F path) ++ log_errors F paths

abbrev dump_errors : Sources → DumpRun → List String
dump_errors F (not_installed e) =
    concat "Error generating database dump: " (F.exception_text e) ∷ []
dump_errors F _ = []

abbrev pub schema_arguments : List String
schema_arguments = "--schema-only" ∷ "--no-owner" ∷ "--no-privileges" ∷ []

abbrev pub data_arguments : List String
data_arguments = "--data-only" ∷ "--inserts" ∷ "--column-inserts" ∷ []

pub expected_errors : Sources → (dsn : String) → Contents → List String
expected_errors F dsn c =
    c.errors
    ++ (log_errors F c.log_file_paths
        ++ (dump_errors F (F.pg_dump dsn schema_arguments)
            ++ dump_errors F (F.pg_dump dsn data_arguments)))

abbrev pub is_run : DumpRun → Bool
is_run (failed e) = false
is_run _ = true

-- A directory to which each file can be written, and from which it can be read again.
pub record KeepsFiles (A : Directory) : Type 0 where
  pub written : (name content : String) (d : A.State) → (A.write name content d).0 ≡ ok tt
  pub kept :
      (name content : String) (d : A.State) → A.read name (A.write name content d).1 ≡ ok content

-- The report of the errors, if there is one.
abbrev pub Reports : (A : Directory) → List String → A.State → Type 0
Reports A [] d = Unit
Reports A (e ∷ errors) d = A.read "generation-errors.txt" d ≡ ok (join "\n" (e ∷ errors))

module _ (S : Services) (F : Sources) (A D : Directory) (storage : D.State)
    (keeps : KeepsFiles A) where
  -- An action that ends with a value, in a directory of which something is known.
  record Ends {R : Type 0} (value : R) (P : A.State → Type 0) (run : Exec A.State R) : Type 0 where
    each : (d : A.State) → ((run d).0 ≡ ok value) × P (run d).1

  abbrev Gives : {R : Type 0} → R → Exec A.State R → Type 0
  Gives value run = Ends value (λ _. Unit) run

  Gives-pure : {R : Type 0} (value : R) → Gives value (pure value)
  unfolding pure
  Gives-pure value = record { each = λ d. (refl, tt) }

  continued :
      {R Q : Type 0} (r : R) (q : Q) (P : A.State → Type 0) (next : R → Exec A.State Q)
      (outcome : Result R × A.State)
      → outcome.0 ≡ ok r
      → ((d : A.State) → ((next r d).0 ≡ ok q) × P (next r d).1)
      → ((continue next outcome).0 ≡ ok q) × P (continue next outcome).1
  continued r q P next (ok x, d) e each =
      subst (λ y. ((next y d).0 ≡ ok q) × P (next y d).1) (sym (same_ok e)) (each d)
  continued r q P next (err x, d) e each = cc

  Ends-bind :
      {R Q : Type 0} {r : R} {q : Q} {P : A.State → Type 0} (first : Exec A.State R)
      (next : R → Exec A.State Q)
      → Gives r first
      → Ends q P (next r)
      → Ends q P (first >>= next)
  unfolding ◌>>=◌
  Ends-bind {R} {Q} {r} {q} {P} first next hf hn = record {
    each = λ d. continued r q P next (first d) (hf.each d).0 hn.each;
  }

  file : (name content : String) → Gives tt (write_file S F A name content)
  file name content = record { each = λ d. (keeps.written name content d, tt) }

  optional_file :
      (o : Option String) (name : String) → Gives tt (on_option o (pure tt) (write_file S F A name))
  unfolding on_option
  optional_file none name = Gives-pure tt
  optional_file (some content) name = file name content

  reporting : (c : Contents) → Gives tt (write_reporting S F A c)
  unfolding on_option
  reporting c = elim (Option-cases c.json_reporting_data) [
    | inl e ↦ rw e (Gives-pure tt)
    | inr (report, e) ↦ elim (Option-cases c.reporting_data_filename_prefix) [
      | inl g ↦ rw e (rw g (Gives-pure tt))
      | inr (prefix, g) ↦ rw e (rw g (file _ _))
    ]
  ]

  warned :
      (filename_infix : String) (warnings : List WarningEntry)
      → Gives tt (write_warnings S F A filename_infix warnings)
  warned filename_infix [] = Gives-pure tt
  warned filename_infix (w ∷ warnings) = file _ _

  reported : (errors : List String) → Ends tt (Reports A errors) (write_errors S F A errors)
  reported [] = Gives-pure tt
  reported (e ∷ errors) = record { each = λ d. (keeps.written _ _ d, keeps.kept _ _ d) }

  ran_once :
      (name : String) (run : DumpRun)
      → is_run run ≡ true
      → Gives (dump_errors F run) (dump_written S F A name run)
  ran_once name (ran written) h = Ends-bind _ _ (optional_file written name) (Gives-pure [])
  ran_once name (not_installed e) h = Gives-pure _
  ran_once name (failed e) h = cc

  read_log :
      (path : String) (content : Result String) (name : String)
      → Gives (unread F path content) (
          try_except
            (do text ← lift content; write_file S F A name text; pure [])
            (λ e. pure (log_error S F A path e)))
  unfolding try_except lift ◌>>=◌
  read_log path (err e) name = record { each = λ d. (refl, tt) }
  read_log path (ok content) name = record { each = λ d. (stored d, tt) }
    where
      stored :
          (d : A.State)
          → ((try_except
                (do text ← lift (ok content); write_file S F A name text; pure [])
                (λ e. pure (log_error S F A path e)))
              d).0
            ≡ ok []
      stored d = ground (arith, keeps.written name content d)

  logged :
      (filename_infix : String) (paths : List String)
      → Gives (log_errors F paths) (copy_logs S F A filename_infix paths)
  unfolding copy_log copy_logs log_errors
  logged filename_infix [] = Gives-pure []
  logged filename_infix (path ∷ paths) =
      Ends-bind _ _ (read_log path (log_content F path) _)
        (Ends-bind _ _ (logged filename_infix paths) (Gives-pure _))

  module _ (dsn : String) (named : F.postgres_dsn ≡ some dsn)
      (schema : is_run (F.pg_dump dsn schema_arguments) ≡ true)
      (rows : is_run (F.pg_dump dsn data_arguments) ≡ true) where
    given : Gives {R = String} dsn (on_option F.postgres_dsn (raise external) (λ name. pure name))
    unfolding on_option pure
    given = record { each = λ d. (ground (arith, named), tt) }

    whole :
        (c : Contents)
        → Ends tt (Reports A (expected_errors F dsn c)) (write_contents S F A D storage c)
    unfolding write_contents expected_errors dump
    whole c = Ends-bind _ _ (optional_file c.json_status_summary _) (
        Ends-bind _ _ (reporting c) (
          Ends-bind _ _ (warned c.filename_infix c.warnings) (
            Ends-bind _ _ (logged c.filename_infix c.log_file_paths) (
              Ends-bind _ _ (record { each = λ d. (refl, tt) })
                (Ends-bind _ _ given (
                  Ends-bind _ _ (ran_once _ _ schema)
                    (Ends-bind _ _ (ran_once _ _ rows) (reported _))))))))

    abbrev pub IsPacked :
        {Zip : Type 0} → Contents → A.State → (make_archive : A.State → Result Zip) → Type 0
    IsPacked c archive_dir make_archive =
        (d : A.State) × ((write_zip_to_file S F A D storage (ok archive_dir) make_archive c
            ≡ make_archive d)
          × Reports A (expected_errors F dsn c) d)

    packs :
        {Zip : Type 0} (make_archive : A.State → Result Zip) (errors : List String)
        (outcome : Result (Unit {0}) × A.State)
        → outcome.0 ≡ ok tt
        → Reports A errors outcome.1
        → (d : A.State) × ((packed S F A make_archive outcome ≡ make_archive d)
            × Reports A errors d)
    packs make_archive errors (ok tt, d) e h = (d, (refl, h))
    packs make_archive errors (err x, d) e h = cc

    -- The archive is made of a directory in which, if there are errors, a file reports them: those
    -- that there were before, one for each log that cannot be read, and one for each of the two dumps
    -- whose tool is missing, all in order. This is where the database has a name, the tool raises
    -- nothing else, and the directory keeps the files that are written to it.
    pub write_zip_to_file-reports :
        {Zip : Type 0} (make_archive : A.State → Result Zip) (c : Contents) (archive_dir : A.State)
        → IsPacked c archive_dir make_archive
    unfolding write_zip_to_file
    write_zip_to_file-reports make_archive c archive_dir =
        packs make_archive (expected_errors F dsn c) (write_contents S F A D storage c archive_dir)
          ((whole c).each archive_dir).0 ((whole c).each archive_dir).1

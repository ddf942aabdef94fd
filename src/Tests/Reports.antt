-- ===== src/Tests/Reports.antt =====
-- The final archive of a test with one large log.
use cactus_runner.Prelude.{
  map, length, str_eq, eq_refl, if◌then◌else◌, List, arith, ℕ, zero, suc, ◌+◌, ◌≤◌, String, [], ◌∷◌,
  none, some, ◌≡◌, refl, ap, sym, ◌∙◌,
}
use cactus_runner.Prelude.Strings
use cactus_runner.Exec.{Result, ok, err, external}
use cactus_runner.Finalize.Archive.{ran, Sources, Contents, log_content}
use cactus_runner.Finalize.Archiving.{
  CopiesFiles, KeepsFiles, IsPacked, log_content-length, write_zip_to_file-reports,
}
use cactus_runner.Tests.Samples.{services}
use cactus_runner.RequestArchive.{Directory}

-- The file that ends where it is cut off before its third byte.
abbrev tail : ℕ → Result String
tail (suc (suc zero)) = ok "cdefgh"
tail _ = err external

abbrev sources : Sources
sources = record {
  max_log_file_bytes = 4;
  getsize = λ path. ok 6;
  copyfile = λ path. ok "abcdefgh";
  copy_from = λ offset path. tail offset;
  exception_text = λ e. "";
  postgres_dsn = some "envoy";
  pg_dump = λ dsn args. ran (some "CREATE TABLE");
}

same_ok : {A : Type 0} {a b : A} → ok a ≡ ok b → a ≡ b
same_ok e = cc

-- Two bytes are added to the file before it is copied.
whole_length :
    (content : String) (size : ℕ)
    → ok 6 ≡ ok size
    → ok "abcdefgh" ≡ ok content
    → Strings.length content ≡ size + 2
unfolding Strings.length
whole_length content size g c =
    ap (λ text. Strings.length text) (sym (same_ok c)) ∙ ap (λ n. n + 2) (same_ok g)

end_length :
    (content : String) (size offset : ℕ)
    → ok 6 ≡ ok size
    → tail offset ≡ ok content
    → Strings.length content + offset ≡ size + 2
unfolding Strings.length
end_length content size (suc (suc zero)) g c =
    ap (λ text. Strings.length text + 2) (sym (same_ok c)) ∙ ap (λ n. n + 2) (same_ok g)
end_length content size zero g c = cc
end_length content size (suc zero) g c = cc
end_length content size (suc (suc (suc n))) g c = cc

sources-CopiesFiles : CopiesFiles sources (λ path. 2)
sources-CopiesFiles = record {
  whole = λ path content size g c. whole_length content size g c;
  end = λ path content size offset g small c. end_length content size offset g c;
}

log_content-length_example : Strings.length "cdefgh" ≤ 4 + 2
unfolding log_content
log_content-length_example =
    log_content-length sources (λ path. 2) sources-CopiesFiles "cactus_runner.jsonl" "cdefgh" refl

abbrev contents : Contents
contents = record {
  json_status_summary = some "{}";
  json_reporting_data = none;
  log_file_paths = "cactus_runner.jsonl" ∷ [];
  errors = "Failed to generate reporting data: " ∷ [];
  filename_infix = "_0_ALL-01";
  reporting_data_filename_prefix = none;
  warnings = [];
}

-- A directory that is the list of what was written to it, last first.
look_up : String → List (String × String) → Result String
look_up name [] = err external
look_up name ((n, content) ∷ rest) =
    let found = look_up name rest in if str_eq n name then ok content else found

abbrev written_files : Directory
written_files = record {
  State = List (String × String);
  names = λ files. map (λ entry. entry.0) files;
  read = look_up;
  write = λ name content files. (ok tt, (name, content) ∷ files);
  unlink = λ name files. files;
}

written_files-KeepsFiles : KeepsFiles written_files
unfolding look_up
written_files-KeepsFiles = record {
  written = λ name content files. refl;
  kept = λ name content files. ground (arith, eq_refl name);
}

write_zip_to_file-reports_example :
    IsPacked services sources written_files written_files [] written_files-KeepsFiles "envoy" refl
      refl refl contents []
      (λ files. ok (length files))
write_zip_to_file-reports_example =
    write_zip_to_file-reports services sources written_files written_files []
      written_files-KeepsFiles "envoy" refl refl refl (λ files. ok (length files)) contents []

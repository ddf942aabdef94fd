-- ===== src/RequestArchive.antt =====
-- requests_archive.py: the files of the requests and responses of a test. The directory that holds
-- them is a record of operations; what they promise is said where it is used.

pub mod Names
pub mod Pruning
pub mod Window
pub mod Runs
use cactus_runner.Prelude.{
  ℕ, ◌-◌, String, Bool, true, false, not, ◌&&◌, ◌||◌, List, [], ◌∷◌, ◌++◌, Option, none, some,
  str_eq, concat, map, keep, leb, ltb, ◌==◌, if◌then◌else◌,
}
use cactus_runner.Prelude.Int.{ℤ, pos, leb_ℤ, eqb_ℤ}
use cactus_runner.Prelude.Dict
use cactus_runner.Prelude.Dict.{Dict}
use cactus_runner.Prelude.Strings
use cactus_runner.Prelude.Strings.{texts, join, split, lstrip, ends_with}
use cactus_runner.Exec.{
  Exec, Result, ok, err, pure, gets, modify, try_except, for_each, on_option, ◌>>=◌, ◌>>◌,
}
use cactus_runner.Definitions.{Time, text, of_int}
use cactus_runner.Models.{RequestEntry}
use cactus_runner.Services.{Services}
use package.text.Mathlib.Text.{starts_with}
use Prim.Native.Char.{code}

-- REQUEST_DATA_DIR, or another directory: the names in it, and what it does with one file. A file
-- that cannot be deleted stays.
pub record Directory : Type 1 where
  pub State : Type 0
  pub names : State → List String
  pub read : String → State → Result String
  pub write : (name content : String) → State → Result (Unit {0}) × State
  pub unlink : String → State → State

-- What ProxyResult holds of one exchange, with the bodies decoded.
pub record Exchange : Type 0 where
  pub request_headers : Dict String
  pub request_body : Option String
  pub response_headers : Dict String
  pub response_body : Option String
  pub response_timestamp : Time

-- datetime.fromtimestamp(float(text)), the two formats of a time, and the phrase of a status
pub record Formats : Type 0 where
  pub from_timestamp : String → Option Time
  pub epoch : Time → String
  pub utc : Time → String
  pub phrase : ℕ → String

-- [a-zA-Z0-9._-]
unfoldable pub is_safe : ℕ → Bool
is_safe c =
    (leb b'a' c && leb c b'z')
    || (leb b'A' c && leb c b'Z')
    || (leb b'0' c && leb c b'9')
    || c == b'.'
    || c == b'_'
    || c == b'-'

-- re.sub(r"[^a-zA-Z0-9._-]", "_", path)
unfoldable pub with_underscores : String → String
unfolding is_safe
with_underscores String.[] = ""
with_underscores (String.◌∷◌ c s) =
    let rest = with_underscores s in
    if is_safe (code c) then String.◌∷◌ c rest else String.◌∷◌ "_" rest

abbrev or_root : String → String
or_root String.[] = "root"
or_root (String.◌∷◌ c s) = String.◌∷◌ c s

abbrev first_part : List String → String
first_part [] = ""
first_part (part ∷ _) = part

unfoldable pub sanitise_url_to_filename : String → String
unfolding with_underscores
sanitise_url_to_filename url =
    or_root (with_underscores (lstrip b'/' (first_part (split b'?' url))))

-- raw_value.removeprefix("t="). The headers stand under one spelling of their names; the code's
-- dictionary ignores case.
abbrev without_t : String → String
without_t raw = if starts_with raw "t=" then Strings.drop 2 raw else raw

unfoldable pub parse_request_start_header : Formats → Dict String → Option Time
parse_request_start_header F headers = elim (Dict.get "X-Request-Start" headers) [
  | none ↦ none
  | some raw ↦ if str_eq raw "" then none else F.from_timestamp (without_t raw)
]

abbrev header_lines : Dict String → List String
header_lines [] = []
header_lines ((name, value) ∷ rest) = texts (name ∷ ": " ∷ value ∷ []) ∷ header_lines rest

-- An empty line and the body, where there is one.
abbrev body_lines : Option String → List String
body_lines none = []
body_lines (some body) = if str_eq body "" then [] else "" ∷ body ∷ []

abbrev time_lines : Formats → Time → (source : String) → List String
time_lines F t source =
    texts ("# Epoch: " ∷ F.epoch t ∷ [])
    ∷ texts ("# UTC: " ∷ F.utc t ∷ [])
    ∷ texts ("# Time source: " ∷ source ∷ [])
    ∷ []

-- The receipt by nginx, or else that by the runner.
abbrev receipt_lines : Formats → Option Time → Time → List String
receipt_lines F none received = time_lines F received "runner (request received)"
receipt_lines F (some t) received = time_lines F t "nginx ingress"

unfoldable pub request_content : Formats → Exchange → RequestEntry → String
unfolding parse_request_start_header
request_content F x entry = join "\n" (
    receipt_lines F (parse_request_start_header F x.request_headers) entry.timestamp
    ++ texts (entry.method ∷ " " ∷ entry.path ∷ " HTTP/1.1" ∷ []) ∷ header_lines x.request_headers
    ++ body_lines x.request_body)

module _ (S : Services) where
  unfoldable pub response_content : Formats → Exchange → RequestEntry → String
  response_content F x entry = join "\n" (
      time_lines F x.response_timestamp "runner (envoy response received)"
      ++ texts
          ("HTTP/1.1 " ∷ S.format (of_int (pos entry.status)) ∷ " " ∷ F.phrase entry.status ∷ [])
        ∷ header_lines x.response_headers
      ++ body_lines x.response_body)

  -- f"{request_id:03d}-"
  abbrev id_prefix : ℕ → String
  id_prefix request_id = concat (S.zero_pad 3 (pos request_id)) "-"

  unfoldable pub base_name : (request_id : ℕ) → RequestEntry → String
  unfolding sanitise_url_to_filename
  base_name request_id entry =
      concat (S.zero_pad 3 (pos request_id))
        (String.◌∷◌ "-" (texts (entry.step_name ∷ "-" ∷ sanitise_url_to_filename entry.path ∷ [])))

  -- int(file_path.name.split("-")[0])
  unfoldable pub request_id_of : String → Result ℤ
  request_id_of name = S.int_of (text (first_part (split b'-' name)))

  abbrev insert_id : ℤ → List ℤ → List ℤ
  insert_id a [] = a ∷ []
  insert_id a (b ∷ rest) =
      let others = insert_id a rest in
      if eqb_ℤ a b then b ∷ rest else if leb_ℤ a b then a ∷ b ∷ rest else b ∷ others

  -- The sorted set of the ids; a name that has none is left out.
  unfoldable pub ids_of : List String → List ℤ
  unfolding request_id_of
  ids_of [] = []
  ids_of (name ∷ rest) = elim (request_id_of name) [
    | ok n ↦ insert_id n (ids_of rest)
    | err e ↦ ids_of rest
  ]

  -- glob(f"{prefix}*.{extension}")
  unfoldable pub is_file_of : (prefix extension name : String) → Bool
  is_file_of prefix extension name =
      starts_with name prefix && ends_with name (concat "." extension)

  module _ (D : Directory) where
    abbrev glob : (prefix extension : String) → D.State → List String
    glob prefix extension d = keep (is_file_of prefix extension) (D.names d)

    unfoldable pub unlink_all : List String → D.State → D.State
    unlink_all [] d = d
    unlink_all (name ∷ rest) d = unlink_all rest (D.unlink name d)

    unfoldable pub clear_request_data_dir : D.State → D.State
    unfolding unlink_all
    clear_request_data_dir d = unlink_all (D.names d) d

    -- The two files, as far as no exception stops the writing, which is logged.
    unfoldable pub write_request_response_files :
        Formats → (request_id : ℕ) → Exchange → RequestEntry → Exec D.State (Unit {0})
    unfolding request_content response_content base_name
    write_request_response_files F request_id x entry =
        try_except
          (do
            D.write (concat (base_name request_id entry) ".request") (request_content F x entry)
            D.write (concat (base_name request_id entry) ".response") (response_content F x entry))
          (λ e. pure tt)

    abbrev content_of : List String → D.State → Option String
    content_of [] d = none
    content_of (name ∷ _) d = elim (D.read name d) [ ok content ↦ some content | err e ↦ none ]

    unfoldable pub read_request_response_files :
        (request_id : ℤ) → D.State → Option String × Option String
    unfolding is_file_of
    read_request_response_files request_id d = (
      content_of (glob (concat (S.zero_pad 3 request_id) "-") "request" d) d,
      content_of (glob (concat (S.zero_pad 3 request_id) "-") "response" d) d,
    )

    -- Delete the pair that has rolled out of the window.
    unfoldable pub prune_old_request_response_pairs :
        (current_request_id max_pairs : ℕ) → D.State → D.State
    unfolding unlink_all is_file_of
    prune_old_request_response_pairs current_request_id max_pairs d =
        let prefix = id_prefix (current_request_id - max_pairs) in
        let requests_gone = unlink_all (glob prefix "request" d) d in
        if ltb current_request_id max_pairs
        then d
        else unlink_all (glob prefix "response" requests_gone) requests_gone

    unfoldable pub get_all_request_ids : D.State → List ℤ
    unfolding ids_of is_file_of
    get_all_request_ids d = ids_of (glob "" "request" d)

-- The copy of the files into the subdirectory `requests` of an archive; a file that cannot be read or
-- written is left out.
module _ (S : Services) (D A : Directory) where
  abbrev written : Result String → (name : String) → A.State → A.State
  written (err e) name archive = archive
  written (ok content) name archive = (A.write (concat "requests/" name) content archive).1

  unfoldable pub copy_all : List String → D.State → A.State → A.State
  copy_all [] d archive = archive
  copy_all (name ∷ rest) d archive = copy_all rest d (written (D.read name d) name archive)

  unfoldable pub copy_request_response_files_to_archive : D.State → A.State → A.State
  unfolding copy_all
  copy_request_response_files_to_archive d archive =
      let requests = copy_all (glob S D "" "request" d) d archive in
      copy_all (glob S D "" "response" d) d requests

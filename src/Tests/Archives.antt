-- ===== src/Tests/Archives.antt =====
-- The request archive over a directory in memory, and the pages of a list in memory.
use cactus_runner.Prelude.{
  ℕ, List, String, not, [], ◌∷◌, none, some, ◌≡◌, ◌≢◌, refl, arith, concat, keep, str_eq,
  if◌then◌else◌,
}
use cactus_runner.Prelude.Int.{pos}
use cactus_runner.Prelude.Dict
use cactus_runner.Prelude.Dict.{Dict}
use cactus_runner.Exec.{Result, ok, err, key_error}
use cactus_runner.Services.{Services}
use cactus_runner.RequestArchive.{Directory, sanitise_url_to_filename, base_name, request_id_of}
use cactus_runner.RequestArchive.Names.{
  IsSafeName, HasNo, sanitise_url_to_filename-IsSafeName, request_id_of-base_name,
}
use cactus_runner.RequestArchive.Pruning.{Deletes}
use cactus_runner.AdminClient.{get_all_site_controls}
use cactus_runner.AdminClient.Pages.{serving, get_all_site_controls_complete}
use cactus_runner.RequestArchive.{Exchange, Formats}
use cactus_runner.RequestArchive.Pruning.{more_elements, own_elements}
use cactus_runner.RequestArchive.Window.{Writes, PadsNumbers, Without}
use cactus_runner.RequestArchive.Runs.{log_run, log_run-Without}
use cactus_runner.Prelude.{suc, zero, sym, ap, ◌∙◌, true, All, elem, eq_refl, Bool-cases, inl, inr}
use cactus_runner.Prelude.Int.{ℤ, pos_part}
use cactus_runner.Prelude.Strings
use cactus_runner.Models.{RequestEntry}
use cactus_runner.Tests.Samples.{services}
use cactus_runner.Tests.Polling.{poll_at}

pub without : String → Dict String → Dict String
without name [] = []
without name ((n, content) ∷ rest) =
    let others = without name rest in if str_eq n name then others else (n, content) ∷ others

abbrev read_in : String → Dict String → Result String
read_in name files = elim (Dict.get name files) [ none ↦ err key_error | some content ↦ ok content ]

abbrev pub in_memory : Directory
in_memory = record {
  State = Dict String;
  names = λ files. Dict.keys files;
  read = read_in;
  write = λ name content files. (ok tt, Dict.set name content files);
  unlink = without;
}

keys-without :
    (name : String) (files : Dict String)
    → Dict.keys (without name files) ≡ keep (λ n. not (str_eq n name)) (Dict.keys files)
unfolding without
keys-without name [] = refl
keys-without name ((n, content) ∷ rest) = ground (arith, keys-without name rest)

in_memory-Deletes : Deletes in_memory
in_memory-Deletes = record { names-unlink = keys-without }

-- Numbers that are padded to "007".
abbrev padded : Services
padded = record services { zero_pad = λ width n. "007"; int_of = λ v. ok (pos 7) }

abbrev files : Dict String
files = ("007-S1-dcap.request", "") ∷ ("007-S1-dcap.response", "") ∷ ("008-S1-tm.request", "") ∷ []

request_id_of-base_name_example :
    request_id_of padded (concat (base_name padded 7 (poll_at 100)) ".request") ≡ ok (pos 7)
unfolding HasNo
request_id_of-base_name_example =
    request_id_of-base_name padded 7 (poll_at 100) ".request" (refl, (refl, (refl, tt))) refl

sanitise_url_to_filename-IsSafeName_example :
    (sanitise_url_to_filename "/edev/1?s=0" ≢ "")
    × IsSafeName (sanitise_url_to_filename "/edev/1?s=0")
sanitise_url_to_filename-IsSafeName_example = sanitise_url_to_filename-IsSafeName "/edev/1?s=0"

abbrev numbers : List ℕ
numbers = 1 ∷ 2 ∷ 3 ∷ 4 ∷ 5 ∷ []

get_all_site_controls_complete_example :
    get_all_site_controls (serving numbers) 2 0 5 ≡ some (ok numbers)
get_all_site_controls_complete_example = get_all_site_controls_complete numbers 2 (omega arith)

-- Numbers in strokes.
strokes : ℕ → String
strokes zero = ""
strokes (suc n) = String.◌∷◌ "i" (strokes n)

abbrev strokes_of : ℤ → String
strokes_of n = strokes (pos_part n)

abbrev tallied : Services
tallied = record services { zero_pad = λ width n. strokes_of n }

strokes-HasNo : (n : ℕ) → HasNo b'-' (strokes n)
unfolding strokes HasNo
strokes-HasNo zero = tt
strokes-HasNo (suc n) = (refl, strokes-HasNo n)

length-strokes : (n : ℕ) → Strings.length (strokes n) ≡ n
unfolding strokes Strings.length
length-strokes zero = refl
length-strokes (suc n) = omega (arith, length-strokes n)

tallied-PadsNumbers : PadsNumbers tallied
tallied-PadsNumbers = record {
  no_dash = strokes-HasNo;
  different = λ m n e. sym (length-strokes m) ∙ ap (λ s. Strings.length s) e ∙ length-strokes n;
}

one_more :
    (a b : String) (xs zs : List String)
    → All (λ z. elem z (a ∷ xs) ≡ true) zs
    → All (λ z. elem z (a ∷ b ∷ xs) ≡ true) zs
one_more a b xs [] h = tt
one_more a b xs (z ∷ zs) h = ground (arith, one_more a b xs zs)

names-set :
    (name content : String) (entries : Dict String)
    → All
        (λ n. elem n (name ∷ Dict.keys entries) ≡ true)
        (Dict.keys (Dict.set name content entries))
unfolding Dict.set
names-set name content [] = ground (arith, eq_refl name)
names-set name content ((n, c) ∷ rest) = elim (Bool-cases (str_eq n name)) [
  | inl e ↦ rw e (
      more_elements name (n ∷ Dict.keys rest) (n ∷ Dict.keys rest)
        (own_elements (n ∷ Dict.keys rest)))
  | inr e ↦
      rw e (
        ground (arith, eq_refl n),
        one_more name n (Dict.keys rest) _ (names-set name content rest),
      )
]

in_memory-Writes : Writes in_memory
in_memory-Writes = record { names-write = names-set }

abbrev plain_formats : Formats
plain_formats = record {
  from_timestamp = λ s. none;
  epoch = λ t. "";
  utc = λ t. "";
  phrase = λ status. "OK";
}

abbrev exchange : Exchange
exchange = record {
  request_headers = [];
  request_body = none;
  response_headers = [];
  response_body = none;
  response_timestamp = 0;
}

abbrev three : List (Exchange × RequestEntry)
three = (exchange, poll_at 100) ∷ (exchange, poll_at 200) ∷ (exchange, poll_at 300) ∷ []

log_run-Without_example :
    Without tallied in_memory 0 (log_run tallied in_memory plain_formats 2 0 three files)
log_run-Without_example =
    log_run-Without tallied tallied-PadsNumbers in_memory in_memory-Writes in_memory-Deletes
      plain_formats 2 three files 0 (omega arith)

-- ===== src/RequestArchive/Names.antt =====
-- requests_archive.py: the names of the files.
use cactus_runner.Prelude.{
  ℕ, String, true, false, List, [], ◌∷◌, ◌≡◌, ◌≢◌, refl, ap, ◌∙◌, arith, concat, ◌==◌,
}
use cactus_runner.Prelude.Int.{pos}
use cactus_runner.Prelude.Strings.{split, cons_head, lstrip, texts}
use cactus_runner.Exec.{ok}
use cactus_runner.Definitions.{text}
use cactus_runner.Models.{RequestEntry}
use cactus_runner.Services.{Services}
use cactus_runner.RequestArchive.{
  is_safe, with_underscores, or_root, sanitise_url_to_filename, base_name, request_id_of,
  first_part,
}
use Prim.Native.Char.{Char, code}
use package.text.Mathlib.TextLemmas.{append_assoc, nil-append, cons-append, cons≢nil}

-- Each character is a letter, a digit, or one of . _ -
pub IsSafeName : String → Type 0
IsSafeName String.[] = Unit
IsSafeName (String.◌∷◌ c s) = (is_safe (code c) ≡ true) × IsSafeName s

with_underscores-IsSafeName : (s : String) → IsSafeName (with_underscores s)
unfolding with_underscores IsSafeName
with_underscores-IsSafeName String.[] = tt
with_underscores-IsSafeName (String.◌∷◌ c s) = ground (arith, with_underscores-IsSafeName s)

-- The text does not hold the character.
unfoldable pub HasNo : ℕ → String → Type 0
HasNo char String.[] = Unit
HasNo char (String.◌∷◌ c s) = (code c == char ≡ false) × HasNo char s

first_part-head :
    (c : Char) (parts : List String)
    → parts ≢ []
    → first_part (cons_head c parts) ≡ String.◌∷◌ c (first_part parts)
first_part-head c [] h = absurd (h refl)
first_part-head c (part ∷ parts) h = refl

split-some : (char : ℕ) (s : String) → split char s ≢ []
unfolding split
split-some char String.[] = ground arith
split-some char (String.◌∷◌ c s) = ground arith

pub first_part-split :
    (char : ℕ) (d : Char) (s rest : String)
    → code d ≡ char
    → HasNo char s
    → first_part (split char (concat s (String.◌∷◌ d rest))) ≡ s
unfolding split HasNo
first_part-split char d String.[] rest e h =
    let same : code d == char ≡ true = ground arith in
    rw (nil-append (String.◌∷◌ d rest), split, same) refl
first_part-split char d (String.◌∷◌ c s) rest e h =
    let more : String = concat s (String.◌∷◌ d rest) in
    rw (cons-append c s (String.◌∷◌ d rest), split, h.0)
      (first_part-head c (split char more) (split-some char more)
        ∙ ap (String.◌∷◌ c) (first_part-split char d s rest e h.1))

or_root-IsSafeName : (s : String) → IsSafeName s → (or_root s ≢ "") × IsSafeName (or_root s)
unfolding IsSafeName is_safe
or_root-IsSafeName String.[] h = (cons≢nil, (refl, (refl, (refl, (refl, tt)))))
or_root-IsSafeName (String.◌∷◌ c s) h = (cons≢nil, h)

-- The part of a file's name that stands for the path is not empty, and has only letters, digits and
-- the characters . _ - whatever the path is.
pub sanitise_url_to_filename-IsSafeName :
    (url : String) → (sanitise_url_to_filename url ≢ "") × IsSafeName (sanitise_url_to_filename url)
unfolding sanitise_url_to_filename
sanitise_url_to_filename-IsSafeName url =
    or_root-IsSafeName _ (with_underscores-IsSafeName (lstrip b'/' (first_part (split b'?' url))))

module _ (S : Services) where
  -- The id that is read from the name of a file is the one that the file was written for, where the
  -- padded number holds no dash and is read back as the number.
  pub request_id_of-base_name :
      (request_id : ℕ) (entry : RequestEntry) (extension : String)
      → HasNo b'-' (S.zero_pad 3 (pos request_id))
      → S.int_of (text (S.zero_pad 3 (pos request_id))) ≡ ok (pos request_id)
      → request_id_of S (concat (base_name S request_id entry) extension) ≡ ok (pos request_id)
  unfolding base_name request_id_of
  request_id_of-base_name request_id entry extension h e =
      let name : String =
        String.◌∷◌ "-" (texts (entry.step_name ∷ "-" ∷ sanitise_url_to_filename entry.path ∷ [])) in
      let pad : String = S.zero_pad 3 (pos request_id) in
      ap (λ s. S.int_of (text (first_part (split b'-' s))))
        (append_assoc pad name extension ∙ ap (concat pad) (cons-append "-" _ extension))
      ∙ ap (λ s. S.int_of (text s))
          (first_part-split b'-' "-" pad
            (concat (texts (entry.step_name ∷ "-" ∷ sanitise_url_to_filename entry.path ∷ []))
              extension)
            refl h)
      ∙ e

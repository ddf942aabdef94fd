-- ===== src/RequestArchive/Window.antt =====
-- requests_archive.py, handler.py: the files that a run of requests leaves, each request written and
-- then pruned, as `log_request` does.
use cactus_runner.Prelude.{
  ℕ, ◌+◌, ◌-◌, String, Bool, true, false, not, ◌||◌, List, [], ◌∷◌, ◌≡◌, ◌≢◌, refl, sym, ap, ◌∙◌,
  subst, arith, All, elem, keep, concat, ltb, eq_iff, Bool-cases, inl, inr,
}
use cactus_runner.Prelude.Int.{pos}
use cactus_runner.Prelude.Strings.{split, texts}
use cactus_runner.Exec.Preserves.{Preserves, Preserves-bind, Preserves-pure, Preserves-try_except}
use cactus_runner.Models.{RequestEntry}
use cactus_runner.Services.{Services}
use cactus_runner.RequestArchive.{
  Directory, Exchange, Formats, id_prefix, is_file_of, base_name, first_part,
  sanitise_url_to_filename, write_request_response_files, prune_old_request_response_pairs,
}
use cactus_runner.RequestArchive.Names.{HasNo, first_part-split}
use cactus_runner.RequestArchive.Pruning.{
  Deletes, is_pruned, names-prune_old_request_response_pairs,
}
use package.text.Mathlib.Text.{starts_with}
use package.text.Mathlib.TextEquality.{starts_with_iff}
use package.text.Mathlib.TextLemmas.{append_assoc, cons-append}

-- A write adds no other name.
pub record Writes (D : Directory) : Type 0 where
  pub names-write :
      (name content : String) (d : D.State)
      → All (λ n. elem n (name ∷ D.names d) ≡ true) (D.names (D.write name content d).1)

-- Padded numbers hold no dash, and differ for different numbers.
pub record PadsNumbers (S : Services) : Type 0 where
  pub no_dash : (n : ℕ) → HasNo b'-' (S.zero_pad 3 (pos n))
  pub different : (m n : ℕ) → S.zero_pad 3 (pos m) ≡ S.zero_pad 3 (pos n) → m ≡ n

-- A file of the request with this id.
abbrev pub pair_of : Services → ℕ → String → Bool
pair_of S k name =
    is_file_of S (id_prefix S k) "request" name || is_file_of S (id_prefix S k) "response" name

abbrev pub NoneOf : (String → Bool) → List String → Type 0
NoneOf p names = All (λ name. p name ≡ false) names

at_element :
    (p : String → Bool) (xs : List String) (y : String)
    → NoneOf p xs
    → elem y xs ≡ true
    → p y ≡ false
at_element p [] y h e = cc
at_element p (x ∷ xs) y h e = ground (arith, eq_iff x y, at_element p xs y h.1)

NoneOf-elements :
    (p : String → Bool) (xs ys : List String)
    → NoneOf p xs
    → All (λ y. elem y xs ≡ true) ys
    → NoneOf p ys
NoneOf-elements p xs [] h es = tt
NoneOf-elements p xs (y ∷ ys) h es = (at_element p xs y h es.0, NoneOf-elements p xs ys h es.1)

NoneOf-keep : (p q : String → Bool) (xs : List String) → NoneOf p xs → NoneOf p (keep q xs)
NoneOf-keep p q [] h = tt
NoneOf-keep p q (x ∷ xs) h = ground (arith, NoneOf-keep p q xs)

NoneOf-kept : (p : String → Bool) (xs : List String) → NoneOf p (keep (λ x. not (p x)) xs)
NoneOf-kept p [] = tt
NoneOf-kept p (x ∷ xs) = ground (arith, NoneOf-kept p xs)

-- The directory has no file of this id.
abbrev pub Without : (S : Services) (D : Directory) → ℕ → D.State → Type 0
Without S D k d = NoneOf (pair_of S k) (D.names d)

module _ (S : Services) (pads : PadsNumbers S) where
  number_of :
      (n : ℕ) (rest : String)
      → first_part (split b'-' (concat (S.zero_pad 3 (pos n)) (String.◌∷◌ "-" rest)))
        ≡ S.zero_pad 3 (pos n)
  number_of n rest = first_part-split b'-' "-" _ rest refl (pads.no_dash n)

  -- A name that begins with an id is that of a file of this id.
  prefix_number :
      (k n : ℕ) (extension : String) (entry : RequestEntry)
      → starts_with (concat (base_name S n entry) extension) (id_prefix S k) ≡ true
      → k ≡ n
  unfolding base_name
  prefix_number k n extension entry h =
      let pad_k : String = S.zero_pad 3 (pos k) in
      let pad_n : String = S.zero_pad 3 (pos n) in
      let rest : String =
        texts (entry.step_name ∷ "-" ∷ sanitise_url_to_filename entry.path ∷ []) in
      let found = (starts_with_iff (concat (base_name S n entry) extension) (id_prefix S k)).0 h in
      let left : concat (id_prefix S k) found.0
          ≡ concat pad_k (String.◌∷◌ "-" (concat "" found.0)) =
        append_assoc pad_k "-" found.0 ∙ ap (concat pad_k) (cons-append "-" "" found.0) in
      let right : concat (concat pad_n (String.◌∷◌ "-" rest)) extension
          ≡ concat pad_n (String.◌∷◌ "-" (concat rest extension)) =
        append_assoc pad_n (String.◌∷◌ "-" rest) extension
        ∙ ap (concat pad_n) (cons-append "-" rest extension) in
      pads.different k n (
        sym (number_of k (concat "" found.0))
        ∙ ap (λ s. first_part (split b'-' s)) (sym left ∙ found.1 ∙ right)
        ∙ number_of n (concat rest extension))

  other_file :
      (k n : ℕ) (extension : String) (entry : RequestEntry)
      → k ≢ n
      → pair_of S k (concat (base_name S n entry) extension) ≡ false
  unfolding is_file_of
  other_file k n extension entry h =
      elim (Bool-cases (starts_with (concat (base_name S n entry) extension) (id_prefix S k))) [
        | inl e ↦ absurd (h (prefix_number k n extension entry e))
        | inr e ↦ rw e refl
      ]

  module _ (D : Directory) (writes : Writes D) where
    written-Without :
        (k : ℕ) (name content : String)
        → pair_of S k name ≡ false
        → Preserves (Without S D k) (D.write name content)
    written-Without k name content other = record {
      after = λ d h.
          NoneOf-elements (pair_of S k) (name ∷ D.names d) _ (other, h)
            (writes.names-write name content d);
    }

    pub write-Without :
        (k n : ℕ) (F : Formats) (x : Exchange) (entry : RequestEntry)
        → k ≢ n
        → Preserves (Without S D k) (write_request_response_files S D F n x entry)
    unfolding write_request_response_files
    write-Without k n F x entry h =
        Preserves-try_except _ _
          (Preserves-bind _ _ (written-Without k _ _ (other_file k n ".request" entry h))
            (λ _. written-Without k _ _ (other_file k n ".response" entry h)))
          (λ e. Preserves-pure tt)

module _ (S : Services) (D : Directory) (deletes : Deletes D) where
  kept_few :
      (k n max_pairs : ℕ) (d : D.State)
      → ltb n max_pairs ≡ true
      → Without S D k d
      → Without S D k (prune_old_request_response_pairs S D n max_pairs d)
  unfolding prune_old_request_response_pairs
  kept_few k n max_pairs d few h = rw few h

  pruned_names :
      (n max_pairs : ℕ) (d : D.State)
      → ltb n max_pairs ≡ false
      → D.names (prune_old_request_response_pairs S D n max_pairs d)
        ≡ keep (λ name. not (is_pruned S n max_pairs name)) (D.names d)
  pruned_names n max_pairs d full =
      names-prune_old_request_response_pairs S D deletes n max_pairs d (ground arith)

  -- Pruning brings no file back.
  pub still-Without :
      (k n max_pairs : ℕ) (d : D.State)
      → Without S D k d
      → Without S D k (prune_old_request_response_pairs S D n max_pairs d)
  still-Without k n max_pairs d h = elim (Bool-cases (ltb n max_pairs)) [
    | inl few ↦ kept_few k n max_pairs d few h
    | inr full ↦
        subst (NoneOf (pair_of S k)) (sym (pruned_names n max_pairs d full))
          (NoneOf-keep (pair_of S k) _ (D.names d) h)
  ]

  -- The request that leaves the window has no file.
  pub left-Without :
      (k n max_pairs : ℕ) (d : D.State)
      → k + max_pairs ≡ n
      → Without S D k (prune_old_request_response_pairs S D n max_pairs d)
  left-Without k n max_pairs d e =
      let number : n - max_pairs ≡ k = omega arith in
      subst (NoneOf (pair_of S k)) (sym (pruned_names n max_pairs d (ground arith))) (
        subst (λ j. NoneOf (pair_of S k) (keep (λ name. not (pair_of S j name)) (D.names d)))
          (sym number) (NoneOf-kept (pair_of S k) (D.names d)))

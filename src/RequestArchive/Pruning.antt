-- ===== src/RequestArchive/Pruning.antt =====
-- requests_archive.py: what pruning leaves in the directory.
use cactus_runner.Prelude.{
  ℕ, ◌-◌, ◌≤◌, String, Bool, true, false, not, ◌&&◌, ◌||◌, List, [], ◌∷◌, ◌≡◌, refl, sym, ap, ◌∙◌,
  arith, All, elem, keep, ltb, str_eq, eq_iff, eq_refl,
}
use cactus_runner.Services.{Services}
use cactus_runner.RequestArchive.{
  Directory, is_file_of, id_prefix, unlink_all, prune_old_request_response_pairs,
}

-- A file that is deleted is gone, and no other.
pub record Deletes (D : Directory) : Type 0 where
  pub names-unlink :
      (name : String) (d : D.State)
      → D.names (D.unlink name d) ≡ keep (λ n. not (str_eq n name)) (D.names d)

keep-both :
    (p q : String → Bool) (xs : List String) → keep p (keep q xs) ≡ keep (λ x. q x && p x) xs
keep-both p q [] = refl
keep-both p q (x ∷ xs) = ground (arith, keep-both p q xs)

keep-same :
    (p q : String → Bool) (xs : List String) → All (λ x. p x ≡ q x) xs → keep p xs ≡ keep q xs
keep-same p q [] h = refl
keep-same p q (x ∷ xs) h = ground (arith, keep-same p q xs)

elem-keep :
    (p : String → Bool) (x : String) (xs : List String) → elem x (keep p xs) ≡ (elem x xs && p x)
elem-keep p x [] = refl
elem-keep p x (y ∷ ys) = ground (arith, elem-keep p x ys, eq_iff y x)

always : (P : String → Type 0) (xs : List String) → ((x : String) → P x) → All P xs
always P [] each = tt
always P (x ∷ xs) each = (each x, always P xs each)

pub more_elements :
    (y : String) (xs zs : List String)
    → All (λ x. elem x xs ≡ true) zs
    → All (λ x. elem x (y ∷ xs) ≡ true) zs
more_elements y xs [] h = tt
more_elements y xs (z ∷ zs) h = ground (arith, more_elements y xs zs)

pub own_elements : (xs : List String) → All (λ x. elem x xs ≡ true) xs
own_elements [] = tt
own_elements (x ∷ xs) =
    let others = more_elements x xs xs (own_elements xs) in ground (arith, eq_refl x)

-- To leave out those of the list that pass a test is to leave out all that pass it.
keep-others :
    (p : String → Bool) (xs zs : List String)
    → All (λ x. elem x xs ≡ true) zs
    → keep (λ x. not (elem x (keep p xs))) zs ≡ keep (λ x. not (p x)) zs
keep-others p xs [] h = refl
keep-others p xs (z ∷ zs) h = ground (arith, elem-keep p z xs, keep-others p xs zs)

-- The pair whose files the window has left.
abbrev pub is_pruned : Services → (current_request_id max_pairs : ℕ) → String → Bool
is_pruned S current_request_id max_pairs name =
    let prefix = id_prefix S (current_request_id - max_pairs) in
    is_file_of S prefix "request" name || is_file_of S prefix "response" name

keep-all : (xs : List String) → keep (λ x. true) xs ≡ xs
keep-all [] = refl
keep-all (x ∷ xs) = rw (keep-all xs) refl

module _ (S : Services) (D : Directory) (deletes : Deletes D) where
  names-unlink_all :
      (gone : List String) (d : D.State)
      → D.names (unlink_all S D gone d) ≡ keep (λ n. not (elem n gone)) (D.names d)
  unfolding unlink_all
  names-unlink_all [] d = sym (keep-all (D.names d))
  names-unlink_all (name ∷ rest) d =
      names-unlink_all rest (D.unlink name d)
      ∙ ap (keep (λ n. not (elem n rest))) (deletes.names-unlink name d)
      ∙ keep-both (λ n. not (elem n rest)) (λ n. not (str_eq n name)) (D.names d)
      ∙ keep-same _ _ (D.names d)
          (always _ (D.names d) (λ n. ground (arith, eq_iff n name, eq_iff name n)))

  names-unlink_matching :
      (p : String → Bool) (d : D.State)
      → D.names (unlink_all S D (keep p (D.names d)) d) ≡ keep (λ n. not (p n)) (D.names d)
  names-unlink_matching p d =
      names-unlink_all (keep p (D.names d)) d
      ∙ keep-others p (D.names d) (D.names d) (own_elements (D.names d))

  -- Where the window of pairs is full, pruning deletes the files of the request that has left it, and
  -- no other.
  pub names-prune_old_request_response_pairs :
      (current_request_id max_pairs : ℕ) (d : D.State)
      → max_pairs ≤ current_request_id
      → D.names (prune_old_request_response_pairs S D current_request_id max_pairs d)
        ≡ keep (λ name. not (is_pruned S current_request_id max_pairs name)) (D.names d)
  unfolding prune_old_request_response_pairs
  names-prune_old_request_response_pairs current_request_id max_pairs d h =
      let prefix : String = id_prefix S (current_request_id - max_pairs) in
      let p : String → Bool = is_file_of S prefix "request" in
      let q : String → Bool = is_file_of S prefix "response" in
      let full : ltb current_request_id max_pairs ≡ false = ground arith in
      rw full (
        names-unlink_matching q (unlink_all S D (keep p (D.names d)) d)
        ∙ ap (keep (λ n. not (q n))) (names-unlink_matching p d)
        ∙ keep-both (λ n. not (q n)) (λ n. not (p n)) (D.names d)
        ∙ keep-same _ _ (D.names d) (always _ (D.names d) (λ n. ground arith)))

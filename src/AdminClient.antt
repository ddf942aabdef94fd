-- ===== src/AdminClient.antt =====
-- envoy_admin_client.py: the pages of a list that the admin server is asked for one after the other.
pub mod Pages
use cactus_runner.Prelude.{
  ℕ, zero, suc, ◌+◌, Bool, true, false, ◌||◌, List, [], ◌∷◌, ◌++◌, Option, none, some, length, leb,
  ltb,
}
use cactus_runner.Exec.{Result, ok, err}

-- SiteControlPageResponse
pub record Page {ℓ} (A : Type ℓ) : Type ℓ where
  pub controls : List A
  pub total_count : ℕ

-- The answer of the server to a request with these parameters; an error status raises.
abbrev pub Server {ℓ} : Type ℓ → Type ℓ
Server A = (start limit : ℕ) → Result (Page A)

module _ {ℓ} {A : Type ℓ} (server : Server A) (limit : ℕ) where
  -- `while True`; `none` is a fuel that is too small.
  unfoldable pub page_loop : (fuel : ℕ) → List A → (current_start : ℕ) → Option (Result (List A))
  page_loop zero all_controls current_start = none
  page_loop (suc fuel) all_controls current_start = elim (server current_start limit) [
    | err e ↦ some (err e)
    | ok page ↦
        elim (leb page.total_count (length (all_controls ++ page.controls))
          || ltb (length page.controls) limit) [
            | true ↦ some (ok (all_controls ++ page.controls))
            | false ↦ page_loop fuel (all_controls ++ page.controls) (current_start + limit)
          ]
  ]

  -- The fuel is for a number of controls; each page but the last has one.
  unfoldable pub get_all_site_controls : (start count : ℕ) → Option (Result (List A))
  unfolding page_loop
  get_all_site_controls start count = page_loop (count + 1) [] start

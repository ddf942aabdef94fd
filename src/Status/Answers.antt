-- ===== src/Status/Answers.antt =====
-- status.py: what a status says of the checks, and that it can be had.
use cactus_runner.Prelude.{String, true, List, [], ◌∷◌, ◌≡◌, refl, map}
use cactus_runner.Exec.{Result, ok, err}
use cactus_runner.Exec.Returns.{
  WhenOk, Returns, Returns-pure, Returns-bind, Returns-bind_returned, Returns-try_except,
}
use cactus_runner.Exec.Total.{returns, Total, Total-pure, Total-bind, Total-try_except}
use cactus_runner.Definitions.{Check}
use cactus_runner.Models.{RequestEntry}
use cactus_runner.Services.{Services}
use cactus_runner.World.{World}
use cactus_runner.Status.Report.{CheckEntry}
use cactus_runner.Status.Summaries.{check_entry, check_entries}

abbrev type_of_check : Check → String
type_of_check check = check.type

abbrev type_of_entry : CheckEntry → String
type_of_entry entry = entry.type

-- A list of entries that names the types of the checks, in order.
abbrev pub NamesChecks : List Check → Result (List CheckEntry) → Type 0
NamesChecks checks (ok entries) = map type_of_entry entries ≡ map type_of_check checks
NamesChecks checks (err e) = ⊥

named :
    (checks : List Check) (result : Result (List CheckEntry))
    → returns result ≡ true
    → WhenOk (λ entries. map type_of_entry entries ≡ map type_of_check checks) result
    → NamesChecks checks result
named checks (ok entries) h n = n
named checks (err e) h n = cc

module _ (S : Services) where
  entry-Returns :
      (history : List RequestEntry) (check : Check)
      → Returns {W = World S} (λ entry. entry.type ≡ check.type) (check_entry S history check)
  entry-Returns history check =
      Returns-try_except _ _ (Returns-bind _ _ (λ result. Returns-pure _ refl))
        (λ e. Returns-pure _ refl)

  entries-Returns :
      (history : List RequestEntry) (checks : List Check)
      → Returns {W = World S}
          (λ entries. map type_of_entry entries ≡ map type_of_check checks)
          (check_entries S history checks)
  unfolding check_entries
  entries-Returns history [] = Returns-pure [] refl
  entries-Returns history (check ∷ checks) =
      Returns-bind_returned _ _ _ (entry-Returns history check) (λ entry e.
        Returns-bind_returned _ _ _ (entries-Returns history checks)
          (λ others es. Returns-pure _ (λ i. e i ∷ es i)))

  pub Total-check_entries :
      (history : List RequestEntry) (checks : List Check)
      → Total {W = World S} (check_entries S history checks)
  unfolding check_entries
  Total-check_entries history [] = Total-pure []
  Total-check_entries history (check ∷ checks) =
      Total-bind _ _ (Total-try_except _ _ (λ e. Total-pure _))
        (λ entry. Total-bind _ _ (Total-check_entries history checks) (λ others. Total-pure _))

  -- The summary of the checks returns whatever a check raises, and has an entry for each check, in
  -- order and with its type.
  pub check_entries-NamesChecks :
      (history : List RequestEntry) (checks : List Check) (w : World S)
      → NamesChecks checks (check_entries S history checks w).0
  check_entries-NamesChecks history checks w =
      named checks (check_entries S history checks w).0
        ((Total-check_entries history checks).each w) ((entries-Returns history checks).each w)

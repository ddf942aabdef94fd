-- ===== src/RequestArchive/Runs.antt =====
-- requests_archive.py, handler.py: the directory after a run of requests, each written and then
-- pruned.
use cactus_runner.Prelude.{
  ℕ, suc, ◌+◌, ◌<◌, List, [], ◌∷◌, ◌≡◌, subst, arith, length, ltb, Bool-cases, inl, inr,
}
use cactus_runner.Models.{RequestEntry}
use cactus_runner.Services.{Services}
use cactus_runner.RequestArchive.{
  Directory, Exchange, Formats, write_request_response_files, prune_old_request_response_pairs,
}
use cactus_runner.RequestArchive.Pruning.{Deletes}
use cactus_runner.Prelude.{ltb→lt}
use cactus_runner.RequestArchive.Window.{
  Writes, PadsNumbers, Without, write-Without, still-Without, left-Without,
}

-- The files of one request, and of a run of them with the ids from a number on.
module _ (S : Services) (D : Directory) (F : Formats) (max_pairs : ℕ) where
  unfoldable pub log_exchange : (request_id : ℕ) → Exchange × RequestEntry → D.State → D.State
  log_exchange request_id (x, entry) d =
      prune_old_request_response_pairs S D request_id max_pairs
        (write_request_response_files S D F request_id x entry d).1

  unfoldable pub log_run : (request_id : ℕ) → List (Exchange × RequestEntry) → D.State → D.State
  log_run request_id [] d = d
  log_run request_id (exchange ∷ rest) d =
      log_run (suc request_id) rest (log_exchange request_id exchange d)

module _ (S : Services) (pads : PadsNumbers S) (D : Directory) (writes : Writes D)
    (deletes : Deletes D) (F : Formats) (max_pairs : ℕ) where
  -- What holds before the request with an id.
  IsWindow : ℕ → D.State → Type 0
  IsWindow n d = (k : ℕ) → k + max_pairs < n → Without S D k d

  log_exchange-IsWindow :
      (n : ℕ) (exchange : Exchange × RequestEntry) (d : D.State)
      → IsWindow n d
      → IsWindow (suc n) (log_exchange S D F max_pairs n exchange d)
  unfolding log_exchange IsWindow
  log_exchange-IsWindow n (x, entry) d h k late = elim (Bool-cases (ltb (k + max_pairs) n)) [
    | inl old ↦ still-Without S D deletes k n max_pairs _ (
        (write-Without S pads D writes k n F x entry
            (λ e. omega (arith, ltb→lt (k + max_pairs) n old))).after
          d (h k (ground arith)))
    | inr new ↦ left-Without S D deletes k n max_pairs _ (ground arith)
  ]

  log_run-IsWindow :
      (n : ℕ) (exchanges : List (Exchange × RequestEntry)) (d : D.State)
      → IsWindow n d
      → IsWindow (n + length exchanges) (log_run S D F max_pairs n exchanges d)
  unfolding log_run
  log_run-IsWindow n [] d h = let same : n ≡ n + 0 = omega arith in subst (λ m. IsWindow m d) same h
  log_run-IsWindow n (exchange ∷ rest) d h =
      let same : suc n + length rest ≡ n + suc (length rest) = omega arith in
      subst (λ m. IsWindow m (log_run S D F max_pairs n (exchange ∷ rest) d)) same
        (log_run-IsWindow (suc n) rest (log_exchange S D F max_pairs n exchange d)
          (log_exchange-IsWindow n exchange d h))

  -- Whatever was in the directory before, after a run of requests with the ids from 0 on it has no
  -- file of a request that the window of pairs has left: none with an id below the number of requests
  -- less the size of the window, where padded numbers differ and hold no dash.
  pub log_run-Without :
      (exchanges : List (Exchange × RequestEntry)) (d : D.State) (k : ℕ)
      → k + max_pairs < length exchanges
      → Without S D k (log_run S D F max_pairs 0 exchanges d)
  unfolding IsWindow
  log_run-Without exchanges d k late =
      log_run-IsWindow 0 exchanges d (λ j early. absurd (omega arith)) k (omega (arith, late))

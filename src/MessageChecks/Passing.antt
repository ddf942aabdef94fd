-- ===== src/MessageChecks/Passing.antt =====
-- check.py: when the checks on notifications and on responses pass.
use cactus_runner.Prelude.{
  ℕ, suc, ◌<◌, ◌≤◌, String, true, not, List, [], ◌∷◌, ◌≡◌, ◌≢◌, ◌↔◌, ◌⊎◌, arith, All, length, keep,
}
use cactus_runner.Prelude.Int.{eqb_ℤ}
use cactus_runner.Services.{Services, TransmitNotificationLog, ControlResponse, SiteControlRow}
use cactus_runner.MessageChecks.{
  is_success, all_succeeded, notifications_result, has_response, match_all_responses,
}

-- A success is an HTTP status from 200 to 299.
abbrev pub IsSuccess : TransmitNotificationLog → Type 0
IsSuccess log = (200 ≤ log.http_status_code) × (log.http_status_code < 300)

-- Some response names the control.
pub HasResponse : List ControlResponse → SiteControlRow → Type 0
HasResponse [] c = ⊥
HasResponse (r ∷ rest) c =
    (eqb_ℤ r.dynamic_operating_envelope_id_snapshot c.dynamic_operating_envelope_id ≡ true)
    ⊎ HasResponse rest c

has_response-HasResponse :
    (responses : List ControlResponse) (c : SiteControlRow)
    → (has_response responses c ≡ true) ↔ HasResponse responses c
unfolding has_response HasResponse
has_response-HasResponse [] c = ground arith
has_response-HasResponse (r ∷ rest) c = ground (arith, has_response-HasResponse rest c)

none_unmatched :
    (responses : List ControlResponse) (controls : List SiteControlRow)
    → (length (keep (λ c. not (has_response responses c)) controls) ≡ 0)
      ↔ All (HasResponse responses) controls
none_unmatched responses [] = ground arith
none_unmatched responses (c ∷ rest) =
    ground (arith, has_response-HasResponse responses c, none_unmatched responses rest)

module _ (S : Services) where
  all_succeeded-IsSuccess :
      (logs : List TransmitNotificationLog) (total : ℕ)
      → ((all_succeeded S logs total).passed ≡ true) ↔ All IsSuccess logs
  unfolding is_success
  all_succeeded-IsSuccess [] total = ground arith
  all_succeeded-IsSuccess (log ∷ rest) total = ground (arith, all_succeeded-IsSuccess rest total)

  -- The check on notifications passes exactly if there is one and each was answered by a success.
  pub notifications_result-passed :
      (logs : List TransmitNotificationLog)
      → ((notifications_result S logs).passed ≡ true) ↔ ((logs ≢ []) × All IsSuccess logs)
  unfolding notifications_result
  notifications_result-passed [] = ground arith
  notifications_result-passed (log ∷ rest) =
      ground (arith, all_succeeded-IsSuccess (log ∷ rest) (suc (length rest)))

  -- The check that all controls have a response passes exactly if each control, active or cancelled,
  -- is named by one of the responses.
  pub match_all_responses-passed :
      (status : String) (controls : List SiteControlRow) (responses : List ControlResponse)
      → ((match_all_responses S status controls responses).passed ≡ true)
        ↔ All (HasResponse responses) controls
  unfolding match_all_responses
  match_all_responses-passed status controls responses =
      ground (arith, none_unmatched responses controls)

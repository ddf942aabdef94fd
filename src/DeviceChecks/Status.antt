-- ===== src/DeviceChecks/Status.antt =====
-- check.py: the check on the status of the client's resource.
use cactus_runner.Prelude.{
  ℕ, String, Bool, false, not, ◌||◌, List, [], ◌∷◌, Option, none, some, if◌then◌else◌,
}
use cactus_runner.Prelude.Int.{ℤ, pos, eqb_ℤ}
use cactus_runner.Prelude.Dict.{Dict}
use cactus_runner.Prelude.Strings.{texts}
use cactus_runner.Exec.{pure, lift, on_option, ◌>>=◌}
use cactus_runner.Definitions.{Resolved, of_int, of_optional_int, is_none}
use cactus_runner.Models.{CheckResult}
use cactus_runner.Services.{Services, Site, SiteDerStatus}
use cactus_runner.SoftChecker.{pass, fail}
use cactus_runner.EnvoyCommon.{Query, query_active_site}
use cactus_runner.Actions.Params.{as_optional_int, parameter}
use cactus_runner.DeviceChecks.{is_nth_bit_set_properly, no_end_device}

abbrev is_value : Option ℤ → ℤ → Bool
is_value none n = false
is_value (some m) n = eqb_ℤ m n

-- `expected is not None and value != expected`
abbrev differs : Option ℤ → Option ℤ → Bool
differs none value = false
differs (some n) value = not (is_value value n)

module _ (S : Services) where
  abbrev bit_failure : Option ℤ → (nth_bit : ℕ) → Resolved → CheckResult
  bit_failure none nth_bit expected = fail (
      texts (
        "DERStatus.genConnectStatus has no value is expecting bit "
        ∷ S.format (of_int (pos nth_bit))
        ∷ " to be "
        ∷ S.format expected
        ∷ "."
        ∷ []))
  bit_failure (some value) nth_bit expected = fail (
      texts (
        "DERStatus.genConnectStatus has value "
        ∷ S.format (of_int value)
        ∷ " but expected bit "
        ∷ S.format (of_int (pos nth_bit))
        ∷ " to be "
        ∷ S.format expected
        ∷ "."
        ∷ []))

  abbrev bit_agrees : Option ℤ → (nth_bit : ℕ) → (expected : Resolved) → Bool
  bit_agrees status nth_bit expected =
      is_none expected
      || elim status [ none ↦ false | some value ↦ is_nth_bit_set_properly value nth_bit expected ]

  -- The bits of the connection status that are asked for, in turn.
  unfoldable pub check_bits : Option ℤ → (bit0 bit1 bit2 : Resolved) → Option CheckResult
  unfolding is_nth_bit_set_properly
  check_bits status bit0 bit1 bit2 =
      if not (bit_agrees status 0 bit0)
      then some (bit_failure status 0 bit0)
      else if not (bit_agrees status 1 bit1)
      then some (bit_failure status 1 bit1)
      else if not (bit_agrees status 2 bit2)
      then some (bit_failure status 2 bit2)
      else none

  abbrev value_failure : String → Option ℤ → Option ℤ → CheckResult
  value_failure name found expected = fail (
      texts (
        "DERStatus."
        ∷ name
        ∷ " has value "
        ∷ S.format (of_optional_int found)
        ∷ " but expected "
        ∷ S.format (of_optional_int expected)
        ∷ "."
        ∷ []))

  -- The check on a status row, for the expected values and bits.
  unfoldable pub status_result :
      SiteDerStatus → (alarm connect mode : Option ℤ) (bit0 bit1 bit2 : Resolved) → CheckResult
  unfolding check_bits
  status_result s alarm connect mode bit0 bit1 bit2 =
      if differs alarm s.alarm_status
      then fail (
          texts (
            "DERStatus.alarmStatus was expecting "
            ∷ S.format (of_optional_int alarm)
            ∷ " but found "
            ∷ S.format (of_optional_int s.alarm_status)
            ∷ "."
            ∷ []))
      else if differs connect s.generator_connect_status
      then value_failure "genConnectStatus" s.generator_connect_status connect
      else elim (check_bits s.generator_connect_status bit0 bit1 bit2) [
        | some failure ↦ failure
        | none ↦
            if differs mode s.operational_mode_status
            then value_failure "operationalModeStatus" s.operational_mode_status mode
            else pass
      ]

  abbrev pub status_of : Site → List SiteDerStatus → Option SiteDerStatus
  status_of site [] = none
  status_of site (row ∷ rest) =
      let other = status_of site rest in if eqb_ℤ row.site_id site.site_id then some row else other

  unfoldable pub check_der_status_contents : Dict Resolved → Query S CheckResult
  unfolding status_result
  check_der_status_contents params = do
    active ← query_active_site S
    on_option active (pure no_end_device) (λ site. do
      rows ← S.site_der_status
      on_option (status_of site rows)
          (pure (
            fail (
              texts
                ("No DERStatus found for EndDevice " ∷ S.format (of_int site.site_id) ∷ "." ∷ []))))
          (λ row. do
            alarm ← lift (as_optional_int (parameter "alarmStatus" params))
            connect ← lift (as_optional_int (parameter "genConnectStatus" params))
            mode ← lift (as_optional_int (parameter "operationalModeStatus" params))
            pure (
                status_result row alarm connect mode (parameter "genConnectStatus_bit0" params)
                  (parameter "genConnectStatus_bit1" params)
                  (parameter "genConnectStatus_bit2" params))))

-- ===== src/MessageChecks.antt =====
-- check.py: the checks on what passes between the client and the server beside its requests: the
-- notifications, the subscriptions and the responses to controls.
pub mod Passing
use cactus_runner.Prelude.{
  ℕ, zero, suc, ◌++◌, String, Bool, true, false, not, ◌&&◌, ◌||◌, List, [], ◌∷◌, Option, none, some,
  ◌⊎◌, inl, inr, str_eq, keep, length, leb, ltb, ◌==◌, if◌then◌else◌, map,
}
use cactus_runner.Prelude.Int.{ℤ, pos, eqb_ℤ}
use cactus_runner.Prelude.Dict
use cactus_runner.Prelude.Dict.{Dict}
use cactus_runner.Prelude.Strings.{texts}
use cactus_runner.Exec.{external, Result, ok, err, pure, lift, on_option, ◌>>=◌}
use cactus_runner.Definitions.{Time, Resolved, scalar, bool, of_int, is_none, is_truthy}
use cactus_runner.Models.{ActiveTestProcedure, CheckResult}
use cactus_runner.Services.{
  Services, TransmitNotificationLog, Subscription, ControlResponse, SiteControlRow, ParsedHref,
}
use cactus_runner.SoftChecker.{fail, passed_with}
use cactus_runner.EnvoyCommon.{Query, is_deleted}
use cactus_runner.Actions.Params.{as_optional_int, as_text, parameter, mandatory}

abbrev eqb_option : Option ℤ → Option ℤ → Bool
eqb_option none none = true
eqb_option (some a) (some b) = eqb_ℤ a b
eqb_option _ _ = false

abbrev first_of {ℓ} : {A : Type ℓ} → List A → Option A
first_of [] = none
first_of (a ∷ _) = some a

unfoldable pub is_success : ℕ → Bool
is_success status = leb 200 status && ltb status 300

-- A subscription of the aggregator to the resource; `column == None` in a query is IS NULL.
unfoldable pub is_subscription_to : ℤ → ParsedHref → Subscription → Bool
is_subscription_to aggregator_id href s =
    eqb_ℤ s.aggregator_id aggregator_id
    && eqb_option s.scoped_site_id href.scoped_site_id
    && str_eq s.resource_type href.resource_type
    && eqb_option s.resource_id href.resource_id

-- c.dynamic_operating_envelope_id in responses_by_doe_id
unfoldable pub has_response : List ControlResponse → SiteControlRow → Bool
has_response [] c = false
has_response (r ∷ rest) c =
    eqb_ℤ r.dynamic_operating_envelope_id_snapshot c.dynamic_operating_envelope_id
    || has_response rest c

-- ORDER BY created_time DESC LIMIT 1
abbrev latest_response : List ControlResponse → Option ControlResponse
latest_response [] = none
latest_response (r ∷ rest) = elim (latest_response rest) [
  | none ↦ some r
  | some s ↦ if leb s.created_time r.created_time then some r else some s
]

-- response_type == status_filter, where there is a filter
unfoldable pub is_of_status : Option ℤ → ControlResponse → Bool
is_of_status none r = true
is_of_status (some status) r = eqb_option r.response_type (some status)

-- dynamic_operating_envelope_id_snapshot == control_id, where there is a tag
unfoldable pub is_of_control : Option ℤ → ControlResponse → Bool
is_of_control none r = true
is_of_control (some id) r = eqb_ℤ r.dynamic_operating_envelope_id_snapshot id

module _ (S : Services) where
  abbrev number : ℕ → String
  number n = S.format (of_int (pos n))

  abbrev all_succeeded : List TransmitNotificationLog → (total : ℕ) → CheckResult
  all_succeeded [] total =
      passed_with (texts ("All " ∷ number total ∷ " notifications yielded HTTP success codes" ∷ []))
  all_succeeded (log ∷ rest) total =
      let others = all_succeeded rest total in
      if is_success log.http_status_code
      then others
      else fail (
          texts (
            "/sub/"
            ∷ S.format (of_int log.subscription_id_snapshot)
            ∷ " received a HTTP "
            ∷ number log.http_status_code
            ∷ " when sending a notification"
            ∷ []))

  -- The result on the log of notifications; none at all is a failure.
  unfoldable pub notifications_result : List TransmitNotificationLog → CheckResult
  unfolding is_success
  notifications_result [] =
      fail "No TransmitNotificationLog entries found. Are there active subscriptions?"
  notifications_result (log ∷ rest) = all_succeeded (log ∷ rest) (length (log ∷ rest))

  unfoldable pub check_all_notifications_transmitted : Query S CheckResult
  unfolding notifications_result
  check_all_notifications_transmitted = do
    logs ← S.transmit_notification_logs
    pure (notifications_result logs)

  abbrev subscription_result : String → Option Subscription → CheckResult
  subscription_result resource none =
      fail (texts ("Couldn't find a subscription for " ∷ resource ∷ []))
  subscription_result resource (some s) =
      passed_with
        (texts ("Matched " ∷ resource ∷ " to /sub/" ∷ S.format (of_int s.subscription_id) ∷ []))

  -- scalar_one_or_none(): several rows raise.
  abbrev one_or_none : List Subscription → Result (Option Subscription)
  one_or_none [] = ok none
  one_or_none (s ∷ []) = ok (some s)
  one_or_none (s ∷ t ∷ rest) = err external

  abbrev find_subscription :
      String → (aggregator_id : ℤ) → ParsedHref ⊎ String → Query S CheckResult
  find_subscription resource aggregator_id (inr message) =
      pure (fail (texts ("Unable to interpret resource " ∷ resource ∷ ": " ∷ message ∷ [])))
  find_subscription resource aggregator_id (inl href) = do
    rows ← S.subscriptions
    found ← lift (one_or_none (keep (is_subscription_to aggregator_id href) rows))
    pure (subscription_result resource found)

  unfoldable pub check_subscription_contents :
      Dict Resolved → ActiveTestProcedure → Query S CheckResult
  unfolding is_subscription_to
  check_subscription_contents params p = do
    value ← lift (mandatory "subscribed_resource" params)
    resource ← lift (as_text value)
    find_subscription resource p.client_aggregator_id (S.parse_resource_href resource)

  unfoldable pub response_type_to_string : Option ℤ → String
  response_type_to_string none = "N/A"
  response_type_to_string (some t) = elim (S.response_type_name t) [
    | some name ↦ texts (name ∷ " (" ∷ S.format (of_int t) ∷ ")" ∷ [])
    | none ↦ texts ("(" ∷ S.format (of_int t) ∷ ")" ∷ [])
  ]

  abbrev unmatched : String → ℕ → CheckResult
  unmatched status zero =
      passed_with (texts ("All DERControl(s) have a Response with a status of " ∷ status ∷ []))
  unmatched status (suc n) = fail (
      texts (
        number (suc n)
        ∷ " DERControl(s) failed to receive a Response with a status of "
        ∷ status
        ∷ []))

  unfoldable pub match_all_responses :
      String → List SiteControlRow → List ControlResponse → CheckResult
  unfolding has_response
  match_all_responses status controls responses =
      unmatched status (length (keep (λ c. not (has_response responses c)) controls))

  abbrev check_all_responses : Option ℤ → Query S CheckResult
  check_all_responses status = do
    controls ← S.dynamic_operating_envelopes
    archived ← S.archive_dynamic_operating_envelopes
    responses ← S.control_responses
    pure (
        match_all_responses (response_type_to_string status) (controls ++ keep is_deleted archived)
          (keep (is_of_status status) responses))

  unfoldable pub latest_result : String → Option ℤ → List ControlResponse → CheckResult
  unfolding response_type_to_string is_of_status
  latest_result context status responses = elim (latest_response responses) [
    | none ↦ fail (texts ("No responses found" ∷ context ∷ []))
    | some r ↦
        if is_of_status status r
        then passed_with (
            texts (
              "Latest DERControl response"
              ∷ context
              ∷ " of type "
              ∷ response_type_to_string r.response_type
              ∷ " matches check"
              ∷ []))
        else fail (
            texts (
              "Latest response"
              ∷ context
              ∷ " is of type "
              ∷ response_type_to_string r.response_type
              ∷ ", not "
              ∷ response_type_to_string status
              ∷ []))
  ]

  abbrev no_response : String → Option ℤ → String
  no_response context none = texts ("No responses found" ∷ context ∷ [])
  no_response context (some status) =
      texts
        ("No responses of type " ∷ response_type_to_string (some status) ∷ " found" ∷ context ∷ [])

  unfoldable pub any_result : String → Option ℤ → List ControlResponse → CheckResult
  unfolding response_type_to_string is_of_status
  any_result context status responses = elim (first_of (keep (is_of_status status) responses)) [
    | none ↦ fail (no_response context status)
    | some r ↦ passed_with (
        texts (
          "At least one DERControl response"
          ∷ context
          ∷ " of type "
          ∷ response_type_to_string r.response_type
          ∷ " was found"
          ∷ []))
  ]

  abbrev check_some_response :
      (is_latest : Bool) (context : String) (control status : Option ℤ) → Query S CheckResult
  check_some_response is_latest context control status = do
    rows ← S.control_responses
    let responses = keep (is_of_control control) rows
    pure (
        if is_latest
        then latest_result context status responses
        else any_result context status responses)

  abbrev check_tagged :
      (is_latest : Bool) (status : Option ℤ) → Dict ℤ → (tag : String) → Query S CheckResult
  check_tagged is_latest status ids tag =
      on_option (Dict.get tag ids)
        (pure (fail (texts ("No DERControl found with tag: " ∷ tag ∷ []))))
        (λ id. check_some_response is_latest (texts (" for tag " ∷ tag ∷ [])) (some id) status)

  unfoldable pub check_response_contents : Dict Resolved → ActiveTestProcedure → Query S CheckResult
  unfolding is_of_status is_of_control match_all_responses latest_result any_result as_optional_int
  check_response_contents params p =
      let is_latest = is_truthy (Dict.get_or "latest" (scalar (bool false)) params) in
      let is_all = is_truthy (Dict.get_or "all" (scalar (bool false)) params) in
      let subject_tag = parameter "subject_tag" params in
      do
        status ← lift (as_optional_int (parameter "status" params))
        if is_all
            then check_all_responses status
            else if is_none subject_tag
            then check_some_response is_latest "" none status
            else (do
              tag ← lift (as_text subject_tag)
              check_tagged is_latest status p.resource_annotations.der_control_ids_by_alias tag)

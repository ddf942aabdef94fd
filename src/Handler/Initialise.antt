-- ===== src/Handler/Initialise.antt =====
-- `initialise_handler`, `initialize_next_test` and `next_test_handler`.
use cactus_runner.Prelude.{ℕ, String, Bool, true, false, Option, none, some, concat, if◌then◌else◌}
use cactus_runner.Prelude.Int.{ℤ}
use cactus_runner.Exec.{
  on_option, Exception, value_error, runtime_error, failed_action_error, unknown_action_error,
  Result, ok, err, pure, raise, lift, gets, try_except, ◌>>=◌, ◌>>◌,
}
use cactus_runner.Definitions.{Preconditions}
use cactus_runner.Models.{
  ClientCertificateType, aggregator, device, InitialisedCertificates, ActiveTestProcedure,
  RunnerState, test_procedure_init,
}
use cactus_runner.Services.{Services}
use cactus_runner.World.{World, Run, call, time_now, update_runner}
use cactus_runner.Precondition.{reset_db, reset_playlist_db}
use cactus_runner.Handler.Replies.{
  RunRequest, RequestBody, missing, malformed, parsed, plain, exception_text, init_response, Reply,
  reply,
}
use cactus_runner.Handler.Start.{add_interaction, attempt_apply_actions, attempt_start_for_state}
use cactus_runner.Handler.Setup.{setup_test_procedure_from_request}

unfoldable pub activate : ActiveTestProcedure → RunnerState → RunnerState
activate p r = record r { active_test_procedure = some p }

unfoldable pub is_action_error : Exception → Bool
is_action_error failed_action_error = true
is_action_error unknown_action_error = true
is_action_error _ = false

unfoldable pub is_value_error : Exception → Bool
is_value_error value_error = true
is_value_error _ = false

abbrev pub bad_json : Reply
bad_json = reply 400 (plain "Unable to parse JSON body to RunRequest instance")

abbrev pub missing_json : Reply
missing_json = reply 400 (plain "Missing JSON body")

module _ (S : Services) where
  -- `m`, or the exception that the `except` clause catches.
  unfoldable pub attempt : {A : Type 0} → (Exception → Bool) → Run S A → Run S (Result A)
  attempt catches m =
      try_except (do a ← m; pure (ok a)) (λ e. if catches e then pure (err e) else raise e)

  -- The reply with the status for the exception that was caught, or what follows.
  unfoldable pub on_error : {A : Type 0} → ℕ → (A → Run S Reply) → Result A → Run S Reply
  on_error status next (ok a) = next a
  on_error status next (err e) = pure (reply status (exception_text e))

  unfoldable pub update_certs : InitialisedCertificates → Run S (Unit {0})
  update_certs certs w = (ok tt, record w { certs = certs })

  unfoldable pub certificate_lfdi : Option String → Run S (Option String)
  certificate_lfdi none = pure none
  certificate_lfdi (some pem) = do lfdi ← lift (S.generate_lfdi_from_pem pem); pure (some lfdi)

  unfoldable pub init_actions : Option Preconditions → Run S (Unit {0})
  init_actions none = pure tt
  init_actions (some preconditions) = attempt_apply_actions S preconditions.init_actions

  unfoldable pub is_immediate : Option Preconditions → Bool
  is_immediate none = false
  is_immediate (some preconditions) = preconditions.immediate_start

  unfoldable pub created : String → (is_started : Bool) → Run S Reply
  created test_procedure is_started = do
    now ← time_now S
    pure (reply 201 (init_response test_procedure now is_started))

  -- The immediate start, once the init actions have run.
  unfoldable pub start_initialised : RunRequest → ActiveTestProcedure → Run S Reply
  start_initialised request p =
      if is_immediate p.definition.preconditions
      then (do
        result ← attempt_start_for_state S
        if result.success
            then created request.test_procedure_id true
            else pure (reply result.status result.content))
      else created request.test_procedure_id false

  unfoldable pub run_init_actions : RunRequest → ActiveTestProcedure → Run S Reply
  run_init_actions request p = do
    outcome ← attempt is_action_error (init_actions p.definition.preconditions)
    on_error 412 (λ _. start_initialised request p) outcome

  -- What follows once the certificate is known.
  unfoldable pub install :
      RunRequest
      → (client_type : ClientCertificateType) → (client_lfdi client_certificate : String)
      → (aggregator_lfdi : Option String) → Run S Reply
  install request client_type client_lfdi client_certificate aggregator_lfdi = do
    aggregator_id ← call S (S.insert_aggregator aggregator_lfdi request.subscription_domain)
    update_certs (record {
      client_certificate_type = some client_type;
      client_certificate = some client_certificate;
      client_lfdi = some client_lfdi;
      client_aggregator_id = some aggregator_id;
    })
    outcome ←
        attempt is_value_error
          (setup_test_procedure_from_request S request client_lfdi aggregator_id client_type)
    on_error 400 (λ p. (do update_runner S (activate p); run_init_actions request p)) outcome

  text_of : Option String → String
  text_of none = ""
  text_of (some s) = s

  -- Exactly one of the two certificates has to be there.
  unfoldable pub choose_certificate :
      RunRequest → (aggregator_lfdi device_lfdi : Option String) → Run S Reply
  unfolding text_of
  choose_certificate request (some a) (some d) = pure (
      reply 400
        (plain "Cannot use 'aggregator_certificate' and 'device_certificate' at the same time."))
  choose_certificate request none none =
      pure (reply 400 (plain "Need one of 'aggregator_certificate' or 'device_certificate'."))
  choose_certificate request none (some d) = install request device d (text_of request.device) none
  choose_certificate request (some a) none =
      install request aggregator a (text_of request.aggregator) (some a)

  unfoldable pub initialise_parsed : RunRequest → Run S Reply
  initialise_parsed request = do
    now ← time_now S
    update_runner S (add_interaction test_procedure_init now)
    reset_db S
    aggregator_lfdi ← certificate_lfdi request.aggregator
    device_lfdi ← certificate_lfdi request.device
    choose_certificate request aggregator_lfdi device_lfdi

  already_active : ActiveTestProcedure → Reply
  already_active p = reply 409 (
      plain (
        concat "Test Procedure (" (
          concat p.name ") already active. Initialising another test procedure is not permitted.")))

  unfoldable pub initialise_handler : RequestBody → Run S Reply
  unfolding already_active
  initialise_handler missing = pure missing_json
  initialise_handler malformed = pure bad_json
  initialise_handler (parsed request) = do
    active ← gets (λ (w : World S). w.runner.active_test_procedure)
    on_option active (initialise_parsed request) (λ p. pure (already_active p))

  -- Whether the next test was started at once.
  unfoldable pub initialize_next_test :
      RunRequest
      → (client_lfdi : String) → (client_aggregator_id : ℤ) → ClientCertificateType
      → Run S Bool
  initialize_next_test request client_lfdi client_aggregator_id client_certificate_type = do
    now ← time_now S
    update_runner S (add_interaction test_procedure_init now)
    p ←
        setup_test_procedure_from_request S request client_lfdi client_aggregator_id
          client_certificate_type
    update_runner S (activate p)
    init_actions p.definition.preconditions
    if is_immediate p.definition.preconditions
        then (do
          result ← attempt_start_for_state S
          if result.success then pure true else raise runtime_error)
        else pure false

  unfoldable pub next_test_status : Exception → Option ℕ
  next_test_status value_error = some 400
  next_test_status failed_action_error = some 412
  next_test_status unknown_action_error = some 412
  next_test_status runtime_error = some 412
  next_test_status _ = none

  is_next_test_error : Exception → Bool
  is_next_test_error e = elim (next_test_status e) [ none ↦ false | some _ ↦ true ]

  unfoldable pub next_test_reply : RunRequest → Result Bool → Run S Reply
  next_test_reply request (ok is_started) = created request.test_procedure_id is_started
  next_test_reply request (err e) =
      on_option (next_test_status e) (raise e) (λ status. pure (reply status (exception_text e)))

  unfoldable pub advance :
      RunRequest
      → (client_lfdi : String) → (client_aggregator_id : ℤ) → ClientCertificateType
      → Run S Reply
  unfolding is_next_test_error
  advance request client_lfdi client_aggregator_id client_certificate_type = do
    reset_playlist_db S
    outcome ←
        attempt is_next_test_error
          (initialize_next_test request client_lfdi client_aggregator_id client_certificate_type)
    next_test_reply request outcome

  unfoldable pub reuse_certificate :
      RunRequest → Option String → Option ℤ → Option ClientCertificateType → Run S Reply
  reuse_certificate request (some lfdi) (some aggregator_id) (some certificate_type) =
      advance request lfdi aggregator_id certificate_type
  reuse_certificate request _ _ _ = pure (
      reply 409 (
        plain
          "Runner has not been initialised. A test procedure must be initialised before advancing."))

  still_active : ActiveTestProcedure → Reply
  still_active p = reply 409 (
      plain (
        concat "Test Procedure (" (
          concat p.name ") still active. It must be finalized before advancing to the next test.")))

  unfoldable pub next_test_handler : RequestBody → Run S Reply
  unfolding still_active
  next_test_handler missing = pure missing_json
  next_test_handler malformed = pure bad_json
  next_test_handler (parsed request) = do
    active ← gets (λ (w : World S). w.runner.active_test_procedure)
    certs ← gets (λ (w : World S). w.certs)
    on_option active
        (reuse_certificate request certs.client_lfdi certs.client_aggregator_id
          certs.client_certificate_type)
        (λ p. pure (still_active p))

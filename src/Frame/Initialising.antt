-- ===== src/Frame/Initialising.antt =====
-- Initialising a test procedure, the first and the next ones.
use cactus_runner.Prelude.{ℕ, Bool, true, false, String, Option, none, some, refl}
use cactus_runner.Prelude.Int.{ℤ}
use cactus_runner.Exec.{Exception, Result, ok, err}
use cactus_runner.Exec.Preserves.{
  Preserves, Preserves-bind, Preserves-if, Preserves-pure, Preserves-raise, Preserves-try_except,
  preserving_rules,
}
use cactus_runner.Exec.Returns.{WhenOk, Preserves-bind_returned}
use cactus_runner.Definitions.{Preconditions}
use cactus_runner.Models.{
  ActiveTestProcedure, ClientCertificateType, InitialisedCertificates, RunnerState,
}
use cactus_runner.Services.{Services}
use cactus_runner.World.{Run}
use cactus_runner.Precondition.{reset_db, reset_playlist_db}
use cactus_runner.Handler.Replies.{Reply, RunRequest, RequestBody, missing, malformed, parsed}
use cactus_runner.Handler.Setup.{setup_test_procedure_from_request}
use cactus_runner.Handler.Initialise
use cactus_runner.Frame.{OnRunner, Preserves-update_runner, world_rules}
use cactus_runner.Frame.Prepared.{IsPrepared, Returns-setup, Returns-attempt}
use cactus_runner.Frame.Starting.{
  ClosedRequests, Preserves-attempt_apply_actions, Preserves-attempt_start_for_state,
}

module _ (S : Services) (Q : RunnerState → Type 0) where
  certs : (c : InitialisedCertificates) → Preserves (OnRunner S Q) (Initialise.update_certs S c)
  unfolding Initialise.update_certs
  certs c = record { after = λ w q. q }

  lfdi : (pem : Option String) → Preserves (OnRunner S Q) (Initialise.certificate_lfdi S pem)
  unfolding Initialise.certificate_lfdi
  lfdi none = search preserving_rules
  lfdi (some pem) = search preserving_rules

  attempt :
      {A : Type 0} (catches : Exception → Bool) (m : Run S A)
      → Preserves (OnRunner S Q) m
      → Preserves (OnRunner S Q) (Initialise.attempt S catches m)
  unfolding Initialise.attempt
  attempt catches m h =
      Preserves-try_except _ _ (Preserves-bind _ _ h (λ a. Preserves-pure _))
        (λ e. Preserves-if (catches e) _ _ (Preserves-pure _) (Preserves-raise e))

  on_error :
      {A : Type 0} (status : ℕ) (next : A → Run S Reply) (r : Result A)
      → ((a : A) → Preserves (OnRunner S Q) (next a))
      → Preserves (OnRunner S Q) (Initialise.on_error S status next r)
  unfolding Initialise.on_error
  on_error status next (ok a) h = h a
  on_error status next (err e) h = search preserving_rules

  on_error_known :
      (status : ℕ) (next : ActiveTestProcedure → Run S Reply) (r : Result ActiveTestProcedure)
      → WhenOk (IsPrepared S) r
      → ((p : ActiveTestProcedure) → IsPrepared S p → Preserves (OnRunner S Q) (next p))
      → Preserves (OnRunner S Q) (Initialise.on_error S status next r)
  unfolding Initialise.on_error
  on_error_known status next (ok p) prepared h = h p prepared
  on_error_known status next (err e) prepared h = search preserving_rules

  reset : Preserves (OnRunner S Q) (reset_db S)
  unfolding reset_db
  reset = search world_rules

  reset_playlist : Preserves (OnRunner S Q) (reset_playlist_db S)
  unfolding reset_playlist_db
  reset_playlist = search (preserving_rules, world_rules) depth 7

  setup :
      (request : RunRequest) (client_lfdi : String) (aggregator_id : ℤ) (t : ClientCertificateType)
      → Preserves
          (OnRunner S Q)
          (setup_test_procedure_from_request S request client_lfdi aggregator_id t)
  unfolding setup_test_procedure_from_request
  setup request client_lfdi aggregator_id t = search (preserving_rules, world_rules) depth 9

  created : (name : String) (b : Bool) → Preserves (OnRunner S Q) (Initialise.created S name b)
  unfolding Initialise.created
  created name b = search (preserving_rules, world_rules)

module _ (S : Services) (Q : RunnerState → Type 0) (closed : ClosedRequests S Q) where
  actions :
      (preconditions : Option Preconditions)
      → Preserves (OnRunner S Q) (Initialise.init_actions S preconditions)
  unfolding Initialise.init_actions
  actions none = search preserving_rules
  actions (some preconditions) =
      Preserves-attempt_apply_actions S Q closed preconditions.init_actions

  start :
      (request : RunRequest) (p : ActiveTestProcedure)
      → Preserves (OnRunner S Q) (Initialise.start_initialised S request p)
  unfolding Initialise.start_initialised
  start request p =
      Preserves-if (Initialise.is_immediate S p.definition.preconditions) _ _
        (Preserves-bind _ _ (Preserves-attempt_start_for_state S Q closed)
          (λ r. Preserves-if r.success _ _ (created S Q _ true) (Preserves-pure _)))
        (created S Q _ false)

  run :
      (request : RunRequest) (p : ActiveTestProcedure)
      → Preserves (OnRunner S Q) (Initialise.run_init_actions S request p)
  unfolding Initialise.run_init_actions
  run request p =
      Preserves-bind _ _ (attempt S Q _ _ (actions _))
        (λ outcome. on_error S Q _ _ outcome (λ _. start request p))

  install :
      (request : RunRequest) (t : ClientCertificateType) (client_lfdi certificate : String)
      (aggregator_lfdi : Option String)
      → Preserves
          (OnRunner S Q)
          (Initialise.install S request t client_lfdi certificate aggregator_lfdi)
  unfolding Initialise.install
  install request t client_lfdi certificate aggregator_lfdi =
      Preserves-bind _ _ (search world_rules) (λ aggregator_id.
        Preserves-bind _ _ (certs S Q _) (λ _.
          Preserves-bind_returned _ _ (attempt S Q _ _ (setup S Q _ _ _ _))
            (Returns-attempt S (IsPrepared S) _ _ (Returns-setup S _ _ _ _))
            (λ outcome known. on_error_known S Q _ _ outcome known (λ p prepared.
              Preserves-bind _ _ (Preserves-update_runner S Q _ (closed.activated p prepared))
                (λ _. run request p)))))

  choose :
      (request : RunRequest) (a d : Option String)
      → Preserves (OnRunner S Q) (Initialise.choose_certificate S request a d)
  unfolding Initialise.choose_certificate
  choose request (some a) (some d) = search preserving_rules
  choose request none none = search preserving_rules
  choose request none (some d) = install request _ d _ none
  choose request (some a) none = install request _ a _ (some a)

  initialise :
      (request : RunRequest) → Preserves (OnRunner S Q) (Initialise.initialise_parsed S request)
  unfolding Initialise.initialise_parsed
  initialise request = Preserves-bind _ _ (search world_rules) (λ now.
      Preserves-bind _ _ (Preserves-update_runner S Q _ (closed.interaction _ refl now)) (λ _.
        Preserves-bind _ _ (reset S Q) (λ _.
          Preserves-bind _ _ (lfdi S Q _)
            (λ a. Preserves-bind _ _ (lfdi S Q _) (λ d. choose request a d)))))

  pub Preserves-initialise_handler :
      (body : RequestBody) → Preserves (OnRunner S Q) (Initialise.initialise_handler S body)
  unfolding Initialise.initialise_handler
  Preserves-initialise_handler missing = search preserving_rules
  Preserves-initialise_handler malformed = search preserving_rules
  Preserves-initialise_handler (parsed request) = search (preserving_rules, initialise)

  next :
      (request : RunRequest) (client_lfdi : String) (aggregator_id : ℤ) (t : ClientCertificateType)
      → Preserves
          (OnRunner S Q)
          (Initialise.initialize_next_test S request client_lfdi aggregator_id t)
  unfolding Initialise.initialize_next_test
  next request client_lfdi aggregator_id t = Preserves-bind _ _ (search world_rules) (λ now.
      Preserves-bind _ _ (Preserves-update_runner S Q _ (closed.interaction _ refl now)) (λ _.
        Preserves-bind_returned _ _ (setup S Q _ _ _ _) (Returns-setup S _ _ _ _) (λ p prepared.
          Preserves-bind _ _ (Preserves-update_runner S Q _ (closed.activated p prepared)) (λ _.
            Preserves-bind _ _ (actions _) (λ _.
              Preserves-if (Initialise.is_immediate S p.definition.preconditions) _ _
                (Preserves-bind _ _ (Preserves-attempt_start_for_state S Q closed)
                  (λ r. search preserving_rules))
                (Preserves-pure _))))))

  answer :
      (request : RunRequest) (r : Result Bool)
      → Preserves (OnRunner S Q) (Initialise.next_test_reply S request r)
  unfolding Initialise.next_test_reply
  answer request (ok b) = created S Q _ b
  answer request (err e) = search preserving_rules

  advance :
      (request : RunRequest) (client_lfdi : String) (aggregator_id : ℤ) (t : ClientCertificateType)
      → Preserves (OnRunner S Q) (Initialise.advance S request client_lfdi aggregator_id t)
  unfolding Initialise.advance
  advance request client_lfdi aggregator_id t =
      Preserves-bind _ _ (reset_playlist S Q) (λ _.
        Preserves-bind _ _ (attempt S Q _ _ (next _ _ _ _)) (λ outcome. answer request outcome))

  reuse :
      (request : RunRequest) (l : Option String) (a : Option ℤ) (t : Option ClientCertificateType)
      → Preserves (OnRunner S Q) (Initialise.reuse_certificate S request l a t)
  unfolding Initialise.reuse_certificate
  reuse request (some l) (some a) (some t) = advance request l a t
  reuse request none a t = search preserving_rules
  reuse request (some l) none t = search preserving_rules
  reuse request (some l) (some a) none = search preserving_rules

  pub Preserves-next_test_handler :
      (body : RequestBody) → Preserves (OnRunner S Q) (Initialise.next_test_handler S body)
  unfolding Initialise.next_test_handler
  Preserves-next_test_handler missing = search preserving_rules
  Preserves-next_test_handler malformed = search preserving_rules
  Preserves-next_test_handler (parsed request) = search (preserving_rules, reuse)

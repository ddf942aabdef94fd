-- ===== src/Main/Statuses.antt =====
-- handler.py, status.py: a request for the status, in the states that are reached.
use cactus_runner.Prelude.{
  ℕ, true, List, [], ◌∷◌, Option, none, some, ◌≡◌, ◌≢◌, refl, sym, subst, arith, All, String,
}
use cactus_runner.Exec.{Result, ok, err, index_error, gets, on_option, ◌>>=◌}
use cactus_runner.Exec.Returns.{WhenOk, Returns, Returns-pure, Returns-bind}
use cactus_runner.Exec.Total.{returns, Total, Total-pure, Total-lift, Total-bind}
use cactus_runner.Definitions.{Time}
use cactus_runner.Models.{
  Listener, ActiveTestProcedure, ClientInteraction, RunnerState, last_client_interaction,
}
use cactus_runner.Services.{Services}
use cactus_runner.World.{World, optional}
use cactus_runner.Status.{unless_empty, get_current_instructions}
use cactus_runner.Status.Active.{get_active_runner_status, get_runner_status}
use cactus_runner.Status.Instructions.{tracked_instructions}
use cactus_runner.Handler.Replies.{Config, Reply}
use cactus_runner.Handler.Reading.{status_handler}
use cactus_runner.Handler.Statuses.{IsTimed, Total-active, Total-observe, Total-time_now}
use cactus_runner.Main.{Reachable}
use cactus_runner.Main.Log.{IsLogged, Reachable-IsLogged}
use cactus_runner.Main.Tracking.Listeners.{IsTracked}
use cactus_runner.Main.Tracking.{WhenActive, HasNamedSteps, Reachable-IsTracked}

-- A reply with this status, and no exception.
abbrev pub RepliesWith : ℕ → Result Reply → Type 0
RepliesWith status (ok r) = r.status ≡ status
RepliesWith status (err e) = ⊥

replied :
    (status : ℕ) (result : Result Reply)
    → returns result ≡ true
    → WhenOk (λ r. r.status ≡ status) result
    → RepliesWith status result
replied status (ok r) h e = e
replied status (err e) h g = cc

last-returns :
    (xs : List ClientInteraction)
    → xs ≢ []
    → returns (optional index_error (last_client_interaction xs)) ≡ true
unfolding last_client_interaction
last-returns [] h = absurd (h refl)
last-returns (x ∷ []) h = refl
last-returns (x ∷ y ∷ rest) h = last-returns (y ∷ rest) (ground arith)

unless_empty-returns : (texts : List String) → returns (unless_empty (ok texts)) ≡ true
unless_empty-returns [] = refl
unless_empty-returns (i ∷ rest) = refl

instructions-returns :
    (p : ActiveTestProcedure)
    → IsTracked p
    → (started : Option Time) → p.started_at ≡ started
    → returns (get_current_instructions p) ≡ true
unfolding get_current_instructions
instructions-returns p t none e = rw e refl
instructions-returns p t (some started) e =
    subst (λ r. returns r ≡ true) (sym (tracked_instructions p t e)) (unless_empty-returns _)

module _ (S : Services) where
  abbrev pub AllTimed : ActiveTestProcedure → Type 0
  AllTimed p = All (λ (l : Listener). IsTimed S l.event) p.listeners

  Total-idle : (i : ClientInteraction) → Total {W = World S} (get_runner_status S i)
  unfolding get_runner_status
  Total-idle i =
      Total-bind _ _ (Total-time_now S)
        (λ now. Total-bind _ _ (Total-observe S _) (λ log. Total-pure _))

  module _ (config : Config) where
    Total-shown :
        (r : RunnerState) (i : ClientInteraction) (active : Option ActiveTestProcedure)
        → WhenActive IsTracked active
        → WhenActive AllTimed active
        → Total {W = World S} (
            on_option active
              (get_runner_status S i)
              (λ p. get_active_runner_status S S.interval_trees p r.request_history i (some 15)))
    unfolding on_option
    Total-shown r i none t h = Total-idle i
    Total-shown r i (some p) t h =
        Total-active S S.interval_trees p r.request_history i (some 15) h
          (instructions-returns p t p.started_at refl)

    status-returns :
        (w : World S)
        → IsLogged w.runner
        → WhenActive IsTracked w.runner.active_test_procedure
        → WhenActive AllTimed w.runner.active_test_procedure
        → returns (status_handler S config w).0 ≡ true
    unfolding status_handler gets ◌>>=◌ IsLogged
    status-returns w logged t h =
        (Total-bind _ _ (Total-lift _ (last-returns w.runner.client_interactions logged.2))
            (λ i. Total-bind _ _ (Total-shown w.runner i _ t h) (λ status. Total-pure _))).each
          w

    status-Returns : Returns {W = World S} (λ r. r.status ≡ 200) (status_handler S config)
    unfolding status_handler
    status-Returns =
        Returns-bind _ _
          (λ runner. Returns-bind _ _ (λ i. Returns-bind _ _ (λ status. Returns-pure _ refl)))

-- In every state that is reached, with definitions whose steps have different names, a request for
-- the status gets the reply 200, whatever the database, the checks and the timeline raise, if each
-- duration of a wait that is left can be added to a time.
pub Reachable-status_handler :
    (S : Services) (unique : HasNamedSteps S) (config : Config) (w : World S)
    → Reachable S config w
    → WhenActive (AllTimed S) w.runner.active_test_procedure
    → RepliesWith 200 (status_handler S config w).0
Reachable-status_handler S unique config w reached timed =
    replied 200 (status_handler S config w).0
      (status-returns S config w (Reachable-IsLogged S config w reached)
        (Reachable-IsTracked S unique config w reached) timed)
      ((status-Returns S config).each w)

-- ===== src/Handler/Proceeding.antt =====
-- event.py, handler.py: a proceed signal, while a step waits for one.
use cactus_runner.Prelude.{
  subst, sym, String, Bool, true, false, List, [], ◌∷◌, Option, none, some, ◌≡◌, refl, arith,
  str_eq, eq_iff, if◌then◌else◌, Bool-cases, Option-cases, inl, inr,
}
use cactus_runner.Exec.{ok, pure, ◌>>=◌, ◌>>◌}
use cactus_runner.Models.{Listener, ActiveTestProcedure, is_finished, enabled_time}
use cactus_runner.Services.{Services, commit}
use cactus_runner.World.{World, Run, the_procedure, time_now, send}
use cactus_runner.Check.{all_checks_passing, first_failing_check}
use cactus_runner.Action.{apply_actions}
use cactus_runner.Event.{
  EventTrigger, proceed, request_of, on_time, on_proceed, timed_triggers, enabled_triggers,
  is_listener_triggerable, is_fired, scan, handle_event_trigger, generate_proceed_trigger,
}
use cactus_runner.Handler.Replies.{proceed_response, Reply, reply}
use cactus_runner.Handler.Control.{is_handled, proceed_unfinished, proceed_handler}

abbrev pub waits_for_proceed : ActiveTestProcedure → Listener → Bool
waits_for_proceed p l = elim (enabled_time p l) [
  | none ↦ false
  | some _ ↦ str_eq l.event.type "proceed"
]

-- The first listener that is enabled and waits for a proceed signal.
unfoldable pub first_waiting : ActiveTestProcedure → List Listener → Option Listener
first_waiting p [] = none
first_waiting p (l ∷ ls) =
    let rest = first_waiting p ls in if waits_for_proceed p l then some l else rest

abbrev pub IsUnchecked : Option Listener → Type 0
IsUnchecked none = Unit
IsUnchecked (some l) = l.event.checks ≡ none

not_wait : (type : String) → str_eq type "proceed" ≡ true → str_eq type "wait" ≡ false
not_wait type h = subst (λ s. str_eq s "wait" ≡ false) (sym ((eq_iff type "proceed").0 h)) refl

is_proceed :
    (p : ActiveTestProcedure) (l : Listener)
    → waits_for_proceed p l ≡ true
    → str_eq l.event.type "proceed" ≡ true
is_proceed p l h = ground arith

module _ {S : Services} where
  abbrev fired_by : Option Listener → Run S (List Listener)
  fired_by none = pure []
  fired_by (some l) = do apply_actions S l; pure (l ∷ [])

module _ (S : Services) (t : EventTrigger) (signal : t.type ≡ proceed)
    (bare : t.client_request ≡ none) (w : World S) (p : ActiveTestProcedure)
    (active : w.runner.active_test_procedure ≡ some p) where
  quiet : (l : Listener) → waits_for_proceed p l ≡ false → is_fired S l t w ≡ (ok false, w)
  unfolding is_fired is_listener_triggerable enabled_triggers timed_triggers on_time on_proceed
      request_of the_procedure ◌>>=◌
  quiet l h = ground arith

  fires :
      (l : Listener)
      → waits_for_proceed p l ≡ true
      → l.event.checks ≡ none
      → is_fired S l t w ≡ (ok true, w)
  unfolding is_fired is_listener_triggerable enabled_triggers timed_triggers on_time on_proceed
      request_of the_procedure all_checks_passing first_failing_check ◌>>=◌
  fires l h c = ground (arith, not_wait l.event.type (is_proceed p l h))

  scanned :
      (ls : List Listener)
      → t.single_listener ≡ true
      → IsUnchecked (first_waiting p ls)
      → scan S t ls w ≡ fired_by (first_waiting p ls) w
  unfolding scan first_waiting ◌>>=◌
  scanned [] one h = refl
  scanned (l ∷ ls) one h = elim (Bool-cases (waits_for_proceed p l)) [
    | inl e ↦ ground (arith, fires l e)
    | inr e ↦ ground (arith, quiet l e, scanned ls one)
  ]

module _ (S : Services) where
  -- A reply that says whether a listener was handled, after the actions of the listener.
  unfoldable pub handled_by : Option Listener → Run S Reply
  handled_by none = do send S commit; pure (reply 200 (proceed_response false))
  handled_by (some l) = do
    apply_actions S l
    send S commit
    pure (reply 200 (proceed_response true))

  abbrev signal_at : World S → EventTrigger
  signal_at w = record {
    type = proceed;
    time = (S.clock w.env).0;
    single_listener = true;
    client_request = none;
  }

  signalled :
      (w : World S) (p : ActiveTestProcedure)
      → w.runner.active_test_procedure ≡ some p
      → IsUnchecked (first_waiting p p.listeners)
      → scan S (signal_at w) p.listeners (time_now S w).1
        ≡ fired_by (first_waiting p p.listeners) (time_now S w).1
  unfolding time_now
  signalled w p active h =
      scanned S (signal_at w) refl refl (time_now S w).1 p active p.listeners refl h

  -- A proceed signal for a test that is not finished, where the first step that is enabled and waits
  -- for one has no checks: the actions of this step are run in the state at the signal, the database
  -- is committed, and the reply says that the signal was handled. Where no step waits nothing is run,
  -- and the reply says so.
  pub proceed_handler-first_waiting :
      (w : World S) (p : ActiveTestProcedure)
      → w.runner.active_test_procedure ≡ some p
      → is_finished p ≡ false
      → IsUnchecked (first_waiting p p.listeners)
      → proceed_handler S w ≡ handled_by (first_waiting p p.listeners) (time_now S w).1
  unfolding proceed_handler proceed_unfinished generate_proceed_trigger handle_event_trigger
      is_handled handled_by time_now ◌>>=◌
  proceed_handler-first_waiting w p active unfinished h =
      elim (Option-cases (first_waiting p p.listeners)) [
        | inl e ↦ ground (arith, e, signalled w p active h)
        | inr (l, e) ↦ ground (arith, e, signalled w p active h)
      ]

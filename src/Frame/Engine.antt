-- ===== src/Frame/Engine.antt =====
-- The event engine.
use cactus_runner.Prelude.{Bool, List, [], ◌∷◌}
use cactus_runner.Exec.Preserves.{
  Preserves, Preserves-bind, Preserves-if, Preserves-pure, preserving_rules,
}
use cactus_runner.Definitions.{Time}
use cactus_runner.Models.{Listener, RunnerState}
use cactus_runner.Services.{Services}
use cactus_runner.Event
use cactus_runner.Event.{
  EventTriggerType, client_request_before, client_request_after, time_tick, proceed, EventTrigger,
  ClientRequestDetails,
}
use cactus_runner.World.{Run}
use cactus_runner.Frame.{OnRunner, Closed, world_rules}
use cactus_runner.Frame.Evaluator.{Preserves-resolve_parameters}
use cactus_runner.Frame.Checks.{Preserves-all_checks_passing}
use cactus_runner.Frame.Apply.{Preserves-apply_actions}

module _ (S : Services) (Q : RunnerState → Type 0) (closed : Closed S Q) where
  parameters : (l : Listener) → Preserves (OnRunner S Q) (Event.resolved_parameters S l)
  unfolding Event.resolved_parameters
  parameters l = search (preserving_rules, Preserves-resolve_parameters S Q closed)

  request :
      (l : Listener) (t : EventTriggerType) (r : ClientRequestDetails)
      → Preserves (OnRunner S Q) (Event.request_triggers S l t r)
  unfolding Event.request_triggers
  request l t r = search (preserving_rules, parameters) depth 9

  wait :
      (l : Listener) (now since : Time)
      → Preserves (OnRunner S Q) (Event.wait_triggers S l now since)
  unfolding Event.wait_triggers
  wait l now since = search (preserving_rules, parameters)

  timeout :
      (l : Listener) (now since : Time)
      → Preserves (OnRunner S Q) (Event.timeout_triggers S l now since)
  unfolding Event.timeout_triggers
  timeout l now since = search (preserving_rules, parameters)

  at_time :
      (t : EventTriggerType) (m : Run S Bool)
      → Preserves (OnRunner S Q) m
      → Preserves (OnRunner S Q) (Event.on_time S t m)
  unfolding Event.on_time
  at_time time_tick m h = h
  at_time client_request_before m h = search preserving_rules
  at_time client_request_after m h = search preserving_rules
  at_time proceed m h = search preserving_rules

  at_proceed :
      (t : EventTriggerType) (m : Run S Bool)
      → Preserves (OnRunner S Q) m
      → Preserves (OnRunner S Q) (Event.on_proceed S t m)
  unfolding Event.on_proceed
  at_proceed time_tick m h = h
  at_proceed client_request_before m h = search preserving_rules
  at_proceed client_request_after m h = search preserving_rules
  at_proceed proceed m h = search preserving_rules

  timed :
      (l : Listener) (t : EventTrigger) (since : Time)
      → Preserves (OnRunner S Q) (Event.timed_triggers S l t since)
  unfolding Event.timed_triggers
  timed l t since = search (preserving_rules, at_time, at_proceed, wait, timeout)

  enabled :
      (l : Listener) (t : EventTrigger) (since : Time)
      → Preserves (OnRunner S Q) (Event.enabled_triggers S l t since)
  unfolding Event.enabled_triggers
  enabled l t since = search (preserving_rules, timed, request)

  triggerable :
      (l : Listener) (t : EventTrigger)
      → Preserves (OnRunner S Q) (Event.is_listener_triggerable S l t)
  unfolding Event.is_listener_triggerable
  triggerable l t = search (preserving_rules, world_rules, enabled)

  fired : (l : Listener) (t : EventTrigger) → Preserves (OnRunner S Q) (Event.is_fired S l t)
  unfolding Event.is_fired
  fired l t = search (preserving_rules, triggerable, Preserves-all_checks_passing S Q closed)

  scanned : (t : EventTrigger) (ls : List Listener) → Preserves (OnRunner S Q) (Event.scan S t ls)
  unfolding Event.scan
  scanned t [] = search preserving_rules
  scanned t (l ∷ ls) = Preserves-bind _ _ (fired l t) (λ b.
      Preserves-if b _ _
        (Preserves-bind _ _ (Preserves-apply_actions S Q closed l) (λ _.
          Preserves-if t.single_listener _ _ (Preserves-pure _)
            (Preserves-bind _ _ (scanned t ls) (λ rest. Preserves-pure _))))
        (scanned t ls))

  pub Preserves-handle_event_trigger :
      (t : EventTrigger) → Preserves (OnRunner S Q) (Event.handle_event_trigger S t)
  unfolding Event.handle_event_trigger
  Preserves-handle_event_trigger t = search (preserving_rules, scanned)

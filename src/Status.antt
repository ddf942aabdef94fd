-- ===== src/Status.antt =====
-- status.py: how the steps and the instructions of a test are shown.
pub mod Values
pub mod Report
pub mod Summaries
pub mod Active
pub mod Answers
pub mod Instructions
pub mod Metadata
use cactus_runner.Prelude.{
  ℕ, ◌-◌, ◌/◌, String, Bool, true, false, List, [], ◌∷◌, ◌++◌, Option, none, some, map, str_eq, leb,
  length, keep, if◌then◌else◌,
}
use cactus_runner.Prelude.Int.{ℤ, pos}
use cactus_runner.Prelude.Dict
use cactus_runner.Prelude.Dict.{Dict}
use cactus_runner.Prelude.Strings.{texts}
use cactus_runner.Exec.{type_error, key_error, Result, ok, err}
use cactus_runner.Definitions.{
  Time, null, Entry, plain, variable, Parameter, single, several, of_int, Event, Step,
  Preconditions,
}
use cactus_runner.Models.{
  Listener, StepInfo, StepStatus, pending, active, resolved, get_step_status, ActiveTestProcedure,
}
use cactus_runner.Services.{Services}
use cactus_runner.DeviceChecks.{bitand, bit_of}
use cactus_runner.Event.Methods.{expected_method}
use cactus_runner.World.{optional}

abbrev pub is_resolved : StepStatus → Bool
is_resolved resolved = true
is_resolved _ = false

abbrev pub is_active : StepStatus → Bool
is_active active = true
is_active _ = false

-- The text of each step that is not in its turn, and of none of its listeners.
abbrev pub in_turn : String → String → String
in_turn step instruction = texts (instruction ∷ " (" ∷ step ∷ ")" ∷ [])

-- The instructions of a step, with its name.
unfoldable pub step_instructions : String → Step → List String
step_instructions name step = elim step.instructions [
  | none ↦ []
  | some instructions ↦ map (in_turn name) instructions
]

abbrev extended : List String → Result (List String) → Result (List String)
extended instructions (ok rest) = ok (instructions ++ rest)
extended instructions (err e) = err e

-- definition.steps[listener.step]
abbrev with_step : Option Step → String → Result (List String) → Result (List String)
with_step none name rest = err key_error
with_step (some step) name rest = extended (step_instructions name step) rest

-- The instructions of the listeners that are enabled, in order.
unfoldable pub enabled_instructions :
    Dict Step → (enabled_times : Dict Time) → List Listener → Result (List String)
unfolding step_instructions
enabled_instructions steps enabled_times [] = ok []
enabled_instructions steps enabled_times (l ∷ ls) =
    let rest = enabled_instructions steps enabled_times ls in
    elim (Dict.get l.step enabled_times) [
      | none ↦ rest
      | some _ ↦ with_step (Dict.get l.step steps) l.step rest
    ]

-- A list that is empty is no list.
abbrev pub unless_empty : Result (List String) → Result (Option (List String))
unless_empty (ok []) = ok none
unless_empty (ok (i ∷ is)) = ok (some (i ∷ is))
unless_empty (err e) = err e

abbrev precondition_instructions : Option Preconditions → Option (List String)
precondition_instructions none = none
precondition_instructions (some preconditions) = preconditions.instructions

unfoldable pub get_current_instructions : ActiveTestProcedure → Result (Option (List String))
unfolding enabled_instructions
get_current_instructions p = elim p.started_at [
  | none ↦ ok (precondition_instructions p.definition.preconditions)
  | some _ ↦ unless_empty (enabled_instructions p.definition.steps p.enabled_times p.listeners)
]

abbrev pub is_absent : Option Parameter → Bool
is_absent none = true
is_absent (some (single (plain null))) = true
is_absent _ = false

abbrev pub unknown_wait : String
unknown_wait = "Waiting for ???s."

module _ (S : Services) where
  abbrev number : ℕ → String
  number n = S.format (of_int (pos n))

  unfoldable pub completed_steps : List StepInfo → ℕ
  unfolding get_step_status
  completed_steps steps = length (keep (λ i. is_resolved (get_step_status i)) steps)

  unfoldable pub get_runner_status_summary : Dict StepInfo → String
  unfolding completed_steps
  get_runner_status_summary step_status = texts (
      number (completed_steps (Dict.values step_status))
      ∷ "/"
      ∷ number (length (Dict.values step_status))
      ∷ " steps complete."
      ∷ [])

  -- started_at + timedelta(seconds=duration_seconds), for a parameter as it stands in the definition
  unfoldable pub finish_time : (started : Time) → Parameter → Result Time
  finish_time started (single (plain duration)) = S.after_seconds started duration
  finish_time started (single (variable e)) = err type_error
  finish_time started (several entries) = err type_error

  -- How long a wait that ends at a time still takes.
  abbrev pub waiting_text : (now finish : Time) → String
  waiting_text now finish =
      if leb finish now
      then "Triggering..."
      else texts ("Waiting for " ∷ number ((finish - now) / 1000000) ∷ "s" ∷ [])

  abbrev wait_until : (now : Time) → Result Time → Result String
  wait_until now (ok finish) = ok (waiting_text now finish)
  wait_until now (err e) = err e

  abbrev wait_from : (now : Time) → Option Time → Parameter → Result String
  wait_from now none duration = ok unknown_wait
  wait_from now (some started) duration = wait_until now (finish_time started duration)

  unfoldable pub wait_status :
      (now : Time) → (started : Option Time) → Option Parameter → Result String
  unfolding finish_time
  wait_status now started none = ok unknown_wait
  wait_status now started (some duration) =
      if is_absent (some duration) then ok unknown_wait else wait_from now started duration

  abbrev endpoint_text : Option Parameter → String
  endpoint_text none = "???"
  endpoint_text (some endpoint) = S.format_parameter endpoint

  -- What a listener of an active step waits for.
  unfoldable pub listener_status : (now : Time) → StepInfo → Event → Result String
  unfolding wait_status expected_method
  listener_status now info event =
      if str_eq event.type "wait"
      then wait_status now info.started_at (Dict.get "duration_seconds" event.parameters)
      else if str_eq event.type "proceed"
      then ok "Waiting on signal to proceed"
      else ok (
          texts (
            expected_method event.type
            ∷ " "
            ∷ endpoint_text (Dict.get "endpoint" event.parameters)
            ∷ []))

  abbrev pub present : Result String → Result (Option String)
  present (ok status) = ok (some status)
  present (err e) = err e

  unfoldable pub first_status :
      (now : Time) (step_name : String) → StepInfo → List Listener → Result (Option String)
  unfolding listener_status
  first_status now step_name info [] = ok none
  first_status now step_name info (l ∷ ls) =
      let others = first_status now step_name info ls in
      if str_eq l.step step_name then present (listener_status now info l.event) else others

  unfoldable pub get_event_status :
      (now : Time) (step_name : String) → StepInfo → ActiveTestProcedure → Result (Option String)
  unfolding first_status get_step_status
  get_event_status now step_name info p =
      if is_active (get_step_status info)
      then first_status now step_name info p.listeners
      else ok none

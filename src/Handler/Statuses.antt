-- ===== src/Handler/Statuses.antt =====
-- status.py, handler.py: when the status of a run can be had.
use cactus_runner.Prelude.{
  ℕ, String, true, false, List, [], ◌∷◌, Option, none, some, ◌≡◌, refl, arith, All, str_eq,
  Bool-cases, inl, inr,
}
use cactus_runner.Prelude.Dict
use cactus_runner.Prelude.Dict.{Dict}
use cactus_runner.Exec.{Result, ok, err, pure}
use cactus_runner.Exec.Total.{
  returns, Total, Total-pure, Total-lift, Total-bind, Total-try_except, Total-on_option,
}
use cactus_runner.Definitions.{Time, Parameter, Event}
use cactus_runner.Models.{Listener, StepInfo, ActiveTestProcedure, ClientInteraction, RequestEntry}
use cactus_runner.Services.{Services}
use cactus_runner.World.{World, call, observe, time_now}
use cactus_runner.Definitions.{Check}
use cactus_runner.Prelude.Int.{ℤ}
use cactus_runner.Exec.{on_option}
use cactus_runner.Models.{get_step_status}
use cactus_runner.Timeline.Trees.{IntervalTrees}
use cactus_runner.Status.Metadata.{get_end_device_metadata}
use cactus_runner.Status.Report.{DeviceMax, no_max}
use cactus_runner.Status.Summaries.{
  paired, step_statuses, status_set_max_w, device_max, check_entries, get_criteria_summary,
  get_precondition_checks_summary,
}
use cactus_runner.Status.Active.{status_timeline, cropped_history, get_active_runner_status}
use cactus_runner.Status.Answers.{Total-check_entries}
use cactus_runner.Status.{
  is_active, present, is_absent, finish_time, wait_status, listener_status, first_status,
  get_event_status, get_current_instructions,
}

module _ (S : Services) where
  -- The duration of a wait, where it has one, can be added to a time.
  abbrev pub IsTimed : Event → Type 0
  IsTimed event =
      str_eq event.type "wait" ≡ true
      → (duration : Parameter) → Dict.get "duration_seconds" event.parameters ≡ some duration
      → is_absent (some duration) ≡ false
      → (t : Time) → returns (finish_time S t duration) ≡ true

  wait_status-returns :
      (now : Time) (started : Option Time) (o : Option Parameter)
      → ((d : Parameter)
          → o ≡ some d
          → is_absent (some d) ≡ false
          → (t : Time) → returns (finish_time S t d) ≡ true)
      → returns (wait_status S now started o) ≡ true
  unfolding wait_status
  wait_status-returns now started none h = refl
  wait_status-returns now none (some d) h = ground arith
  wait_status-returns now (some t) (some d) h = elim (Bool-cases (is_absent (some d))) [
    | inl e ↦ ground arith
    | inr e ↦ ground (arith, h d refl e t)
  ]

  listener_status-returns :
      (now : Time) (i : StepInfo) (event : Event)
      → IsTimed event
      → returns (listener_status S now i event) ≡ true
  unfolding listener_status
  listener_status-returns now i event h = elim (Bool-cases (str_eq event.type "wait")) [
    | inl e ↦ rw e (wait_status-returns now i.started_at _ (h e))
    | inr e ↦ rw e (ground arith)
  ]

  present-returns : (r : Result String) → returns r ≡ true → returns (present S r) ≡ true
  present-returns (ok s) h = refl
  present-returns (err e) h = cc

  first_status-returns :
      (now : Time) (name : String) (i : StepInfo) (ls : List Listener)
      → All (λ (l : Listener). IsTimed l.event) ls
      → returns (first_status S now name i ls) ≡ true
  unfolding first_status
  first_status-returns now name i [] h = refl
  first_status-returns now name i (l ∷ ls) h = elim (Bool-cases (str_eq l.step name)) [
    | inl e ↦ rw e (present-returns _ (listener_status-returns now i l.event h.0))
    | inr e ↦ rw e (first_status-returns now name i ls h.1)
  ]

  pub get_event_status-returns :
      (now : Time) (name : String) (i : StepInfo) (p : ActiveTestProcedure)
      → All (λ (l : Listener). IsTimed l.event) p.listeners
      → returns (get_event_status S now name i p) ≡ true
  unfolding get_event_status
  get_event_status-returns now name i p h = elim (Bool-cases (is_active (get_step_status i))) [
    | inl e ↦ rw e (first_status-returns now name i p.listeners h)
    | inr e ↦ rw e refl
  ]

  paired-returns :
      (name : String) (i : StepInfo) (r : Result (Option String))
      → returns r ≡ true
      → returns (paired S name i r) ≡ true
  paired-returns name i (ok status) h = refl
  paired-returns name i (err e) h = cc

  Total-step_statuses :
      (now : Time) (p : ActiveTestProcedure)
      → All (λ (l : Listener). IsTimed l.event) p.listeners
      → (d : Dict StepInfo) → Total {W = World S} (step_statuses S now p d)
  unfolding step_statuses
  Total-step_statuses now p h [] = Total-pure []
  Total-step_statuses now p h ((name, i) ∷ rest) =
      Total-bind _ _
        (Total-lift _ (paired-returns name i _ (get_event_status-returns now name i p h)))
        (λ entry. Total-bind _ _ (Total-step_statuses now p h rest) (λ others. Total-pure _))

  pub Total-observe : {A : Type 0} (f : S.Env → A × S.Env) → Total (observe S f)
  unfolding observe
  Total-observe f = record { each = λ w. refl }

  pub Total-time_now : Total (time_now S)
  unfolding time_now
  Total-time_now = record { each = λ w. refl }

  Total-entries :
      (history : List RequestEntry) (o : Option (List Check))
      → Total {W = World S} (on_option o (pure []) (check_entries S history))
  Total-entries history o = Total-on_option o _ _ (Total-pure []) (Total-check_entries S history)

  metadata-returns : (w : Option ℤ) → Total {W = World S} (call S (get_end_device_metadata S w))
  unfolding call get_end_device_metadata
  metadata-returns w = record {
    each = λ v. (Total-try_except {W = S.Env} _ _ (λ e. Total-pure none)).each v.env;
  }

  module _ (T : IntervalTrees) where
    timeline-returns :
        (now : Time) (crop : Option ℕ) (p : ActiveTestProcedure) (w : Option ℤ) (m : DeviceMax)
        → Total {W = World S} (status_timeline S T now crop p w m)
    unfolding status_timeline
    timeline-returns now crop p w m = Total-try_except _ _ (λ e. Total-pure none)

    history-returns :
        (crop : Option ℕ) (entries : List RequestEntry)
        → Total {W = World S} (cropped_history S T crop entries)
    unfolding cropped_history
    history-returns none entries = Total-pure entries
    history-returns (some crop) entries = Total-bind _ _ Total-time_now (λ now. Total-pure _)

    pub Total-active :
        (p : ActiveTestProcedure) (entries : List RequestEntry) (i : ClientInteraction)
        (crop : Option ℕ)
        → All (λ (l : Listener). IsTimed l.event) p.listeners
        → returns (get_current_instructions p) ≡ true
        → Total {W = World S} (get_active_runner_status S T p entries i crop)
    unfolding get_active_runner_status status_set_max_w device_max get_criteria_summary
        get_precondition_checks_summary
    Total-active p entries i crop h instructions = Total-bind _ _ Total-time_now (λ now.
        Total-bind _ _ (Total-step_statuses now p h p.step_status) (λ steps.
          Total-bind _ _ (Total-try_except _ _ (λ e. Total-pure none)) (λ w.
            Total-bind _ _ (Total-try_except _ _ (λ e. Total-pure no_max)) (λ m.
              Total-bind _ _ (timeline-returns now crop p w m) (λ timeline.
                Total-bind _ _ (metadata-returns w) (λ metadata.
                  Total-bind _ _ (history-returns crop entries) (λ recent.
                    Total-bind _ _ Total-time_now (λ timestamp.
                      Total-bind _ _ (Total-observe _) (λ log.
                        Total-bind _ _ (Total-entries _ _) (λ criteria.
                          Total-bind _ _ (Total-entries _ _) (λ checks.
                            Total-bind _ _ (Total-lift _ instructions)
                              (λ shown. Total-pure _))))))))))))

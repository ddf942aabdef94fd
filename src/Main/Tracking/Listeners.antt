-- ===== src/Main/Tracking/Listeners.antt =====
-- What the listeners of a procedure say of its steps: predicates, and the steps of a new procedure.
use cactus_runner.Prelude.{
  String, Bool, true, false, ◌||◌, List, [], ◌∷◌, Option, none, some, str_eq, eq_iff, ◌≡◌, refl,
  arith, if◌then◌else◌,
}
use cactus_runner.Prelude.Dict
use cactus_runner.Prelude.Dict.{Dict}
use cactus_runner.Definitions.{Step}
use cactus_runner.Models.{Listener, StepInfo, ActiveTestProcedure}
use cactus_runner.Actions.Steps.{without_listener}
use cactus_runner.Handler.Setup.{listeners_of, pending_steps}

-- A listener of this step is left.
unfoldable pub has_listener : String → List Listener → Bool
has_listener step [] = false
has_listener step (l ∷ ls) = str_eq l.step step || has_listener step ls

-- No two listeners are of one step.
abbrev pub IsDistinct : List Listener → Type 0
IsDistinct [] = Unit {0}
IsDistinct (l ∷ ls) = has_listener l.step ls ≡ false × IsDistinct ls

-- A step with this entry in the table is not completed.
abbrev pub is_open : Option StepInfo → Bool
is_open none = false
is_open (some i) = elim i.completed_at [ none ↦ true | some _ ↦ false ]

-- A listener is left exactly for a step that is not completed, and it was enabled exactly when the
-- step started. Only steps of the definition have an entry.
pub record IsTracked (p : ActiveTestProcedure) : Type 0 where
  pub distinct : IsDistinct p.listeners
  pub left : (step : String) → has_listener step p.listeners ≡ is_open (Dict.get step p.step_status)
  pub enabled :
      (step : String) (i : StepInfo)
      → Dict.get step p.step_status ≡ some i
      → Dict.get step p.enabled_times ≡ i.started_at
  pub named :
      (step : String) → Dict.get step p.definition.steps ≡ none → Dict.get step p.step_status ≡ none

module _ (k : String) where
  pub has_listener-without_listener :
      (j : String) (ls : List Listener)
      → IsDistinct ls
      → has_listener j (without_listener k ls) ≡ (if str_eq k j then false else has_listener j ls)
  unfolding has_listener without_listener
  has_listener-without_listener j [] h = ground arith
  has_listener-without_listener j (l ∷ ls) h =
      ground
        (arith, eq_iff l.step k, eq_iff l.step j, eq_iff k j, has_listener-without_listener j ls)

  pub IsDistinct-without_listener :
      (ls : List Listener) → IsDistinct ls → IsDistinct (without_listener k ls)
  unfolding without_listener
  IsDistinct-without_listener [] h = tt
  IsDistinct-without_listener (l ∷ ls) h =
      ground (arith, IsDistinct-without_listener ls, has_listener-without_listener l.step ls h.1)

-- A dictionary has one entry for each key.
abbrev pub IsDict {ℓ} : {V : Type ℓ} → Dict V → Type ℓ
IsDict [] = Unit
IsDict ((k, v) ∷ d) = Dict.get k d ≡ none × IsDict d

has_listener-listeners_of :
    (k : String) (steps : Dict Step)
    → Dict.get k steps ≡ none
    → has_listener k (listeners_of steps) ≡ false
unfolding has_listener listeners_of Dict.get
has_listener-listeners_of k [] h = refl
has_listener-listeners_of k ((j, s) ∷ steps) h = ground (arith, has_listener-listeners_of k steps)

pub IsDistinct-listeners_of : (steps : Dict Step) → IsDict steps → IsDistinct (listeners_of steps)
unfolding listeners_of
IsDistinct-listeners_of [] h = tt
IsDistinct-listeners_of ((k, s) ∷ steps) h =
    (has_listener-listeners_of k steps h.0, IsDistinct-listeners_of steps h.1)

pub is_open-pending_steps :
    (k : String) (steps : Dict Step)
    → has_listener k (listeners_of steps) ≡ is_open (Dict.get k (pending_steps steps))
unfolding has_listener listeners_of pending_steps Dict.get
is_open-pending_steps k [] = refl
is_open-pending_steps k ((j, s) ∷ steps) = ground (arith, is_open-pending_steps k steps)

pub pending_steps-not_started :
    (k : String) (steps : Dict Step) (i : StepInfo)
    → Dict.get k (pending_steps steps) ≡ some i
    → i.started_at ≡ none
unfolding pending_steps Dict.get
pending_steps-not_started k [] i h = ground arith
pending_steps-not_started k ((j, s) ∷ steps) i h =
    ground (arith, pending_steps-not_started k steps i)

pub pending_steps-named :
    (k : String) (steps : Dict Step)
    → Dict.get k steps ≡ none
    → Dict.get k (pending_steps steps) ≡ none
unfolding pending_steps Dict.get
pending_steps-named k [] h = refl
pending_steps-named k ((j, s) ∷ steps) h = ground (arith, pending_steps-named k steps)

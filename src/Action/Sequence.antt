-- ===== src/Action/Sequence.antt =====
-- action.py: `apply_actions`, as a relation on the states between the actions.
use cactus_runner.Prelude.{
  Bool, true, false, List, [], ◌∷◌, ◌≡◌, ◌↔◌, refl, subst, arith, Bool-cases, inl, inr,
}
use cactus_runner.Exec.{
  Exception, unknown_action_error, failed_action_error, Exec, Result, ok, err, for_each,
  handle_result, continue, try_except, ◌>>=◌,
}
use cactus_runner.Definitions.{Action}
use cactus_runner.Models.{Listener}
use cactus_runner.Services.{Services}
use cactus_runner.World.{World}
use cactus_runner.Action.{apply_action, apply_actions, ignore_action_error}

abbrev pub is_action_error : Exception → Bool
is_action_error unknown_action_error = true
is_action_error failed_action_error = true
is_action_error _ = false

-- The actions in their order, each from the state that the one before it has left. After an action
-- error the next action is applied; any other exception is the end.
pub data Sequence (S : Services)
    : List Action → World S → Result (Unit {0}) → World S → Type 0 where
  done : (w : World S) → Sequence S [] w (ok tt) w
  applied :
      (a : Action) (rest : List Action) (w w₁ w₂ : World S) (r : Result (Unit {0}))
      → apply_action S a w ≡ (ok tt, w₁)
      → Sequence S rest w₁ r w₂
      → Sequence S (a ∷ rest) w r w₂
  passed_over :
      (a : Action) (rest : List Action) (e : Exception) (w w₁ w₂ : World S) (r : Result (Unit {0}))
      → is_action_error e ≡ true
      → apply_action S a w ≡ (err e, w₁)
      → Sequence S rest w₁ r w₂
      → Sequence S (a ∷ rest) w r w₂
  ended :
      (a : Action) (rest : List Action) (e : Exception) (w w₁ : World S)
      → is_action_error e ≡ false
      → apply_action S a w ≡ (err e, w₁)
      → Sequence S (a ∷ rest) w (err e) w₁

module _ (S : Services) where
  abbrev caught : Action → Exec (World S) (Unit {0})
  caught a = try_except (apply_action S a) (ignore_action_error S)

  sound :
      (actions : List Action) (w w' : World S) (r : Result (Unit {0}))
      → Sequence S actions w r w'
      → for_each caught actions w ≡ (r, w')
  unfolding for_each ignore_action_error ◌>>=◌
  sound _ _ _ _ (done w) = refl
  sound _ _ _ _ (applied a rest w w₁ w₂ r h s) = ground (arith, sound rest w₁ w₂ r s)
  sound _ _ _ _ (passed_over a rest e w w₁ w₂ r i h s) = ground (arith, sound rest w₁ w₂ r s)
  sound _ _ _ _ (ended a rest e w w₁ i h) = ground arith

  abbrev Runs : List Action → World S → Result (Unit {0}) × World S → Type 0
  Runs actions w outcome = Sequence S actions w outcome.0 outcome.1

  ignored :
      (e : Exception) (w : World S)
      → is_action_error e ≡ true
      → ignore_action_error S e w ≡ (ok tt, w)
  unfolding ignore_action_error ◌>>=◌
  ignored e w i = ground arith

  raised :
      (e : Exception) (w : World S)
      → is_action_error e ≡ false
      → ignore_action_error S e w ≡ (err e, w)
  unfolding ignore_action_error ◌>>=◌
  raised e w i = ground arith

  -- The rest of the loop after the outcome of one action.
  after :
      (a : Action) (rest : List Action) (w : World S) (outcome : Result (Unit {0}) × World S)
      → apply_action S a w ≡ outcome
      → ((w₁ : World S) → Runs rest w₁ (for_each caught rest w₁))
      → Runs
          (a ∷ rest)
          w
          (continue (λ _. for_each caught rest) (handle_result (ignore_action_error S) outcome))
  after a rest w (ok tt, w₁) h each = applied a rest w w₁ _ _ h (each w₁)
  after a rest w (err e, w₁) h each = elim (Bool-cases (is_action_error e)) [
    | inl i ↦ rw (ignored e w₁ i) (passed_over a rest e w w₁ _ _ i h (each w₁))
    | inr i ↦ rw (raised e w₁ i) (ended a rest e w w₁ i h)
  ]

  complete : (actions : List Action) (w : World S) → Runs actions w (for_each caught actions w)
  unfolding for_each ◌>>=◌
  complete [] w = done w
  complete (a ∷ rest) w = after a rest w (apply_action S a w) refl (complete rest)

  -- The actions of a listener are applied in their order, each from the state that the one before it
  -- has left: an action that fails or that is unknown is passed over, and the first one that raises
  -- another exception ends them with this exception.
  pub apply_actions-Sequence :
      (l : Listener) (w w' : World S) (r : Result (Unit {0}))
      → (apply_actions S l w ≡ (r, w')) ↔ Sequence S l.actions w r w'
  unfolding apply_actions
  apply_actions-Sequence l w w' r = (
    λ e. subst (λ outcome. Runs l.actions w outcome) e (complete l.actions w),
    λ s. sound l.actions w w' r s,
  )

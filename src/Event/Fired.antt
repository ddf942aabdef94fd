-- ===== src/Event/Fired.antt =====
-- event.py: what the result of `handle_event_trigger` tells of the procedure's listeners.
use cactus_runner.Prelude.{
  true, false, List, [], ◌∷◌, some, ◌≡◌, ◌≤◌, arith, length, inl, inr, Option-cases,
}
use cactus_runner.Exec.{ok, ◌>>=◌}
use cactus_runner.Models.{Listener, ActiveTestProcedure, is_finished}
use cactus_runner.Services.{Services}
use cactus_runner.World.{World}
use cactus_runner.Event.{EventTrigger, handle_event_trigger}
use cactus_runner.Event.Rounds.{Round, done, skip, fire, last, scan-Round}

-- The first list is the second with some listeners left out.
pub data Sublist : List Listener → List Listener → Type 0 where
  end : (ls : List Listener) → Sublist [] ls
  take : (l : Listener) (ks ls : List Listener) → Sublist ks ls → Sublist (l ∷ ks) (l ∷ ls)
  omit : (l : Listener) (ks ls : List Listener) → Sublist ks ls → Sublist ks (l ∷ ls)

module _ (S : Services) (t : EventTrigger) where
  in_order :
      (ls fired : List Listener) (w w' : World S) → Round S t ls w fired w' → Sublist fired ls
  in_order _ _ _ _ (done w) = end []
  in_order _ _ _ _ (skip l ls fired w w₁ w₂ e r) = omit l fired ls (in_order ls fired w₁ w₂ r)
  in_order _ _ _ _ (fire l ls fired w w₁ w₂ w₃ s e a r) =
      take l fired ls (in_order ls fired w₂ w₃ r)
  in_order _ _ _ _ (last l ls w w₁ w₂ s e a) = take l [] ls (end ls)

  at_most_one :
      (ls fired : List Listener) (w w' : World S)
      → t.single_listener ≡ true
      → Round S t ls w fired w'
      → length fired ≤ 1
  at_most_one _ _ _ _ single (done w) = omega arith
  at_most_one _ _ _ _ single (skip l ls fired w w₁ w₂ e r) = at_most_one ls fired w₁ w₂ single r
  at_most_one _ _ _ _ single (fire l ls fired w w₁ w₂ w₃ s e a r) = ground arith
  at_most_one _ _ _ _ single (last l ls w w₁ w₂ s e a) = omega arith

  -- The handled listeners of an unfinished test procedure are among the listeners that it had when
  -- the trigger came, in their order; a trigger for a single listener
  -- is handled by at most one.
  pub handle_event_trigger-Sublist :
      (p : ActiveTestProcedure) (fired : List Listener) (w w' : World S)
      → w.runner.active_test_procedure ≡ some p
      → is_finished p ≡ false
      → handle_event_trigger S t w ≡ (ok fired, w')
      → Sublist fired p.listeners × (t.single_listener ≡ true → length fired ≤ 1)
  unfolding handle_event_trigger ◌>>=◌
  handle_event_trigger-Sublist p fired w w' h f e = (
    in_order p.listeners fired w w' round,
    λ single. at_most_one p.listeners fired w w' single round,
  )
    where
      round : Round S t p.listeners w fired w'
      round = (scan-Round S t p.listeners fired w w').0 (ground arith)

  -- Without an active test procedure, or with one that is finished, a trigger fires nothing and
  -- changes nothing.
  pub handle_event_trigger-idle :
      (w : World S)
      → ((p : ActiveTestProcedure) → w.runner.active_test_procedure ≡ some p → is_finished p ≡ true)
      → handle_event_trigger S t w ≡ (ok [], w)
  unfolding handle_event_trigger ◌>>=◌
  handle_event_trigger-idle w h = elim (Option-cases w.runner.active_test_procedure) [
    | inl e ↦ ground arith
    | inr (p, e) ↦ ground (arith, h p e)
  ]

-- ===== src/Event/Rounds.antt =====
-- event.py: which listeners one trigger fires, as a relation on the states in between.
use cactus_runner.Prelude.{
  Bool, true, false, List, [], ◌∷◌, ◌≡◌, ◌↔◌, arith, refl, subst, if◌then◌else◌,
}
use cactus_runner.Exec.{Result, ok, err, pure, continue, ◌>>=◌, ◌>>◌}
use cactus_runner.Models.{Listener}
use cactus_runner.Services.{Services}
use cactus_runner.World.{World}
use cactus_runner.Action.{apply_actions}
use cactus_runner.Event.{EventTrigger, is_fired, scan}

-- The listeners, in their order, from one state to the next: each is tested in the state that those
-- before it have left, and one that fires has run its actions before the next is tested. A trigger
-- for a single listener ends the round at the first that fires.
pub data Round (S : Services) (t : EventTrigger)
    : List Listener → World S → List Listener → World S → Type 0 where
  done : (w : World S) → Round S t [] w [] w
  skip :
      (l : Listener) (ls fired : List Listener) (w w₁ w₂ : World S)
      → is_fired S l t w ≡ (ok false, w₁)
      → Round S t ls w₁ fired w₂
      → Round S t (l ∷ ls) w fired w₂
  fire :
      (l : Listener) (ls fired : List Listener) (w w₁ w₂ w₃ : World S)
      → t.single_listener ≡ false
      → is_fired S l t w ≡ (ok true, w₁)
      → apply_actions S l w₁ ≡ (ok tt, w₂)
      → Round S t ls w₂ fired w₃
      → Round S t (l ∷ ls) w (l ∷ fired) w₃
  last :
      (l : Listener) (ls : List Listener) (w w₁ w₂ : World S)
      → t.single_listener ≡ true
      → is_fired S l t w ≡ (ok true, w₁)
      → apply_actions S l w₁ ≡ (ok tt, w₂)
      → Round S t (l ∷ ls) w (l ∷ []) w₂

module _ (S : Services) (t : EventTrigger) where
  sound :
      (ls fired : List Listener) (w w' : World S)
      → Round S t ls w fired w'
      → scan S t ls w ≡ (ok fired, w')
  unfolding scan ◌>>=◌
  sound _ _ _ _ (done w) = refl
  sound _ _ _ _ (skip l ls fired w w₁ w₂ e r) = ground (arith, sound ls fired w₁ w₂ r)
  sound _ _ _ _ (fire l ls fired w w₁ w₂ w₃ s e a r) = ground (arith, sound ls fired w₂ w₃ r)
  sound _ _ _ _ (last l ls w w₁ w₂ s e a) = ground arith

  AsRound : List Listener → World S → Result (List Listener) × World S → Type 0
  AsRound ls w (ok fired, w') = Round S t ls w fired w'
  AsRound ls w (err e, w') = Unit {0}

  after_rest :
      (l : Listener) (ls : List Listener) (w w₁ w₂ : World S) (r : Result (List Listener) × World S)
      → t.single_listener ≡ false
      → is_fired S l t w ≡ (ok true, w₁)
      → apply_actions S l w₁ ≡ (ok tt, w₂)
      → AsRound ls w₂ r
      → AsRound (l ∷ ls) w (continue (λ rest. pure (l ∷ rest)) r)
  unfolding AsRound pure
  after_rest l ls w w₁ w₂ (ok rest, w₃) s e a h = fire l ls rest w w₁ w₂ w₃ s e a h
  after_rest l ls w w₁ w₂ (err x, w₃) s e a h = tt

  after_actions :
      (l : Listener) (ls : List Listener) (w w₁ : World S) (r : Result (Unit {0}) × World S)
      (b : Bool)
      → t.single_listener ≡ b
      → is_fired S l t w ≡ (ok true, w₁)
      → apply_actions S l w₁ ≡ r
      → ((w' : World S) → AsRound ls w' (scan S t ls w'))
      → AsRound
          (l ∷ ls)
          w
          (continue (λ _. if b then pure (l ∷ []) else (do rest ← scan S t ls; pure (l ∷ rest))) r)
  unfolding AsRound ◌>>=◌
  after_actions l ls w w₁ (err x, w₂) b s e a ih = tt
  after_actions l ls w w₁ (ok tt, w₂) true s e a ih = last l ls w w₁ w₂ s e a
  after_actions l ls w w₁ (ok tt, w₂) false s e a ih =
      after_rest l ls w w₁ w₂ (scan S t ls w₂) s e a (ih w₂)

  after_test :
      (l : Listener) (ls : List Listener) (w : World S) (r : Result Bool × World S)
      → is_fired S l t w ≡ r
      → ((w' : World S) → AsRound ls w' (scan S t ls w'))
      → AsRound (l ∷ ls) w (
          continue
            (λ fired.
              let others = scan S t ls in
              if fired
              then (do
                apply_actions S l
                if t.single_listener then pure (l ∷ []) else (do rest ← others; pure (l ∷ rest)))
              else others)
            r)
  unfolding AsRound ◌>>=◌
  after_test l ls w (err x, w₁) e ih = tt
  after_test l ls w (ok false, w₁) e ih = skipped (scan S t ls w₁) (ih w₁)
    where
      skipped : (r : Result (List Listener) × World S) → AsRound ls w₁ r → AsRound (l ∷ ls) w r
      skipped (ok fired, w₂) h = skip l ls fired w w₁ w₂ e h
      skipped (err x, w₂) h = tt
  after_test l ls w (ok true, w₁) e ih =
      after_actions l ls w w₁ (apply_actions S l w₁) t.single_listener refl e refl ih

  complete : (ls : List Listener) (w : World S) → AsRound ls w (scan S t ls w)
  unfolding scan ◌>>=◌ AsRound
  complete [] w = done w
  complete (l ∷ ls) w = after_test l ls w (is_fired S l t w) refl (complete ls)

  -- The loop over the listeners returns the listeners `fired` in a state exactly if there is a round
  -- of the relation above from the one state to the other that fires them.
  pub scan-Round :
      (ls fired : List Listener) (w w' : World S)
      → (scan S t ls w ≡ (ok fired, w')) ↔ Round S t ls w fired w'
  unfolding AsRound
  scan-Round ls fired w w' = ((λ h. subst (AsRound ls w) h (complete ls w)), sound ls fired w w')

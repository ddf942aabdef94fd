-- ===== src/Exec/Total.antt =====
-- Actions that return in every state.
use cactus_runner.Prelude.{Bool, true, false, Option, none, some, ◌≡◌, refl}
use cactus_runner.Exec.{
  Exception, Result, ok, err, Exec, pure, lift, handle_result, continue, try_except, on_option,
  ◌>>=◌,
}

abbrev pub returns {ℓ} : {A : Type ℓ} → Result A → Bool
returns (ok a) = true
returns (err e) = false

pub record Total {ℓ κ} {W : Type ℓ} {R : Type κ} (run : Exec W R) : Type ℓ where
  pub each : (w : W) → returns (run w).0 ≡ true

passed_on {ℓ κ ν} :
    {W : Type ℓ} {R : Type κ} {Q : Type ν} (next : R → Exec W Q) (outcome : Result R × W)
    → ((r : R) (w : W) → returns (next r w).0 ≡ true)
    → returns outcome.0 ≡ true
    → returns (continue next outcome).0 ≡ true
passed_on next (ok r, w) each h = each r w
passed_on next (err e, w) each h = h

caught {ℓ κ} :
    {W : Type ℓ} {R : Type κ} (rescue : Exception → Exec W R) (outcome : Result R × W)
    → ((e : Exception) (w : W) → returns (rescue e w).0 ≡ true)
    → returns (handle_result rescue outcome).0 ≡ true
caught rescue (ok r, w) each = refl
caught rescue (err e, w) each = each e w

module _ {ℓ κ} {W : Type ℓ} {R : Type κ} where
  pub Total-pure : (r : R) → Total {W = W} (pure r)
  unfolding pure
  Total-pure r = record { each = λ w. refl }

  pub Total-lift : (given : Result R) → returns given ≡ true → Total {W = W} (lift given)
  unfolding lift
  Total-lift given h = record { each = λ w. h }

  -- Whatever is raised, the handler returns.
  pub Total-try_except :
      (body : Exec W R) (rescue : Exception → Exec W R)
      → ((e : Exception) → Total (rescue e))
      → Total (try_except body rescue)
  unfolding try_except
  Total-try_except body rescue h = record { each = λ w. caught rescue (body w) (λ e. (h e).each) }

  pub Total-on_option {ν} :
      {A : Type ν} (o : Option A) (otherwise : Exec W R) (then_do : A → Exec W R)
      → Total otherwise
      → ((a : A) → Total (then_do a))
      → Total (on_option o otherwise then_do)
  unfolding on_option
  Total-on_option none otherwise then_do ho ht = ho
  Total-on_option (some a) otherwise then_do ho ht = ht a

  pub Total-bind {ν} :
      {Q : Type ν} (first : Exec W R) (next : R → Exec W Q)
      → Total first
      → ((r : R) → Total (next r))
      → Total (first >>= next)
  unfolding ◌>>=◌
  Total-bind first next hf hn = record {
    each = λ w. passed_on next (first w) (λ r. (hn r).each) (hf.each w);
  }

pub ruleset total_rules = (Total-pure, Total-lift, Total-try_except, Total-on_option, Total-bind)

-- ===== src/Exec/Preserves.antt =====
-- What an action leaves true of the state, whether it returns or raises: a rule for each of the
-- ways to build one.
use cactus_runner.Prelude.{
  Bool, true, false, List, [], ◌∷◌, Option, none, some, ◌≡◌, refl, sym, subst, if◌then◌else◌,
}
use cactus_runner.Exec.{
  Exception, Result, ok, err, Exec, pure, raise, lift, gets, try_except, handle_result, continue,
  on_option, for_each, ◌>>=◌,
}

pub record Preserves {ℓ κ ν} {W : Type ℓ} {R : Type κ} (I : W → Type ν) (run : Exec W R)
    : Type (ℓ ⊔ ν) where
  pub after : (w : W) → I w → I (run w).1

-- The state is the one before.
abbrev only_looks {ℓ κ ν} :
    {W : Type ℓ} {R : Type κ} {I : W → Type ν} (run : Exec W R)
    → ((w : W) → (run w).1 ≡ w)
    → Preserves I run
only_looks {I = I} run same = record { after = λ w i. subst I (sym (same w)) i }

-- The way of an outcome through the rest of an action.
passed_on {ℓ κ ν μ} :
    {W : Type ℓ} {R : Type κ} {Q : Type ν} (I : W → Type μ) (next : R → Exec W Q)
    (outcome : Result R × W)
    → ((r : R) (w : W) → I w → I (next r w).1)
    → I outcome.1
    → I (continue next outcome).1
passed_on I next (err e, w) each i = i
passed_on I next (ok r, w) each i = each r w i

caught {ℓ κ ν} :
    {W : Type ℓ} {R : Type κ} (I : W → Type ν) (rescue : Exception → Exec W R)
    (outcome : Result R × W)
    → ((e : Exception) (w : W) → I w → I (rescue e w).1)
    → I outcome.1
    → I (handle_result rescue outcome).1
caught I rescue (err e, w) each i = each e w i
caught I rescue (ok r, w) each i = i

module _ {ℓ κ ν} {W : Type ℓ} {R : Type κ} {I : W → Type ν} where
  pub Preserves-gets : (look : W → R) → Preserves I (gets look)
  unfolding gets
  Preserves-gets look = only_looks (gets look) (λ w. refl)

  pub Preserves-lift : (given : Result R) → Preserves I (lift given)
  unfolding lift
  Preserves-lift given = only_looks (lift given) (λ w. refl)

  pub Preserves-pure : (value : R) → Preserves I (pure value)
  unfolding pure
  Preserves-pure value = only_looks (pure value) (λ w. refl)

  pub Preserves-raise : (e : Exception) → Preserves I (raise {A = R} e)
  unfolding raise
  Preserves-raise e = only_looks (raise e) (λ w. refl)

  pub Preserves-if :
      (b : Bool) (left right : Exec W R)
      → Preserves I left
      → Preserves I right
      → Preserves I (if b then left else right)
  Preserves-if false left right hy hn = hn
  Preserves-if true left right hy hn = hy

  pub Preserves-on_option {μ} :
      {A : Type μ} (o : Option A) (otherwise : Exec W R) (then_do : A → Exec W R)
      → Preserves I otherwise
      → ((a : A) → Preserves I (then_do a))
      → Preserves I (on_option o otherwise then_do)
  unfolding on_option
  Preserves-on_option none otherwise then_do ho ht = ho
  Preserves-on_option (some a) otherwise then_do ho ht = ht a

  pub Preserves-try_except :
      (body : Exec W R) (rescue : Exception → Exec W R)
      → Preserves I body
      → ((e : Exception) → Preserves I (rescue e))
      → Preserves I (try_except body rescue)
  unfolding try_except
  Preserves-try_except body rescue hb hr = record {
    after = λ w i. caught I rescue (body w) (λ e. (hr e).after) (hb.after w i);
  }

  pub Preserves-bind {μ} :
      {Q : Type μ} (first : Exec W R) (next : R → Exec W Q)
      → Preserves I first
      → ((r : R) → Preserves I (next r))
      → Preserves I (first >>= next)
  unfolding ◌>>=◌
  Preserves-bind first next hf hn = record {
    after = λ w i. passed_on I next (first w) (λ r. (hn r).after) (hf.after w i);
  }

  pub Preserves-for_each :
      (items : List R) (body : R → Exec W (Unit {0}))
      → ((r : R) → Preserves I (body r))
      → Preserves I (for_each body items)
  unfolding for_each pure ◌>>=◌
  Preserves-for_each [] body hb = record { after = λ w i. i }
  Preserves-for_each (r ∷ items) body hb = record {
    after = λ w i.
        passed_on I _ (body r w) (λ _. (Preserves-for_each items body hb).after) ((hb r).after w i);
  }

pub ruleset preserving_rules = (
  Preserves-pure, Preserves-raise, Preserves-lift, Preserves-gets, Preserves-if,
  Preserves-on_option, Preserves-try_except, Preserves-bind, Preserves-for_each,
)

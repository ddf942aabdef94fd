-- ===== src/Exec/Returns.antt =====
-- What is known of the values that an action returns, and its use in the rest of the action.
use cactus_runner.Prelude.{◌≡◌, ◌⊎◌, inl, inr, refl, Option, none, some}
use cactus_runner.Exec.{
  Exception, Result, ok, err, Exec, pure, raise, lift, handle_result, continue, try_except,
  on_option, ◌>>=◌,
}
use cactus_runner.Exec.Preserves.{Preserves}

-- The predicate on a result that is no exception.
abbrev pub WhenOk {κ ν} : {R : Type κ} → (R → Type ν) → Result R → Type ν
WhenOk G (ok r) = G r
WhenOk G (err e) = Unit

pub Result-cases {κ} :
    {R : Type κ} (r : Result R) → ((a : R) × (r ≡ ok a)) ⊎ ((e : Exception) × (r ≡ err e))
Result-cases (ok a) = inl (a, refl)
Result-cases (err e) = inr (e, refl)

pub record Returns {ℓ κ ν} {W : Type ℓ} {R : Type κ} (G : R → Type ν) (run : Exec W R)
    : Type (ℓ ⊔ ν) where
  pub each : (w : W) → WhenOk G (run w).0

passed_on {ℓ κ ν μ ξ} :
    {W : Type ℓ} {R : Type κ} {Q : Type ν} (I : W → Type μ) (G : R → Type ξ) (next : R → Exec W Q)
    (outcome : Result R × W)
    → ((r : R) → G r → (w : W) → I w → I (next r w).1)
    → WhenOk G outcome.0
    → I outcome.1
    → I (continue next outcome).1
passed_on I G next (err e, w) each g i = i
passed_on I G next (ok r, w) each g i = each r g w i

continued {ℓ κ ν ξ μ} :
    {W : Type ℓ} {R : Type κ} {Q : Type ν} (F : R → Type ξ) (G : Q → Type μ) (next : R → Exec W Q)
    (outcome : Result R × W)
    → ((r : R) → F r → (w : W) → WhenOk G (next r w).0)
    → WhenOk F outcome.0
    → WhenOk G (continue next outcome).0
continued F G next (err e, w) each f = tt
continued F G next (ok r, w) each f = each r f w

anything {κ} : {R : Type κ} (result : Result R) → WhenOk (λ _. Unit {0}) result
anything (ok r) = tt
anything (err e) = tt

handled {ℓ κ ξ} :
    {W : Type ℓ} {R : Type κ} (G : R → Type ξ) (rescue : Exception → Exec W R)
    (outcome : Result R × W)
    → ((e : Exception) (w : W) → WhenOk G (rescue e w).0)
    → WhenOk G outcome.0
    → WhenOk G (handle_result rescue outcome).0
handled G rescue (err e, w) each g = each e w
handled G rescue (ok r, w) each g = g

module _ {ℓ κ ν ξ} {W : Type ℓ} {R : Type κ} {I : W → Type ν} {G : R → Type ξ} where
  -- The rest of an action keeps a property, given what is known of the value before it.
  pub Preserves-bind_returned {μ} :
      {Q : Type μ} (first : Exec W R) (next : R → Exec W Q)
      → Preserves I first
      → Returns G first
      → ((r : R) → G r → Preserves I (next r))
      → Preserves I (first >>= next)
  unfolding ◌>>=◌
  Preserves-bind_returned first next hf hg hn = record {
    after = λ w i. passed_on I G next (first w) (λ r g. (hn r g).after) (hg.each w) (hf.after w i);
  }

module _ {ℓ κ ξ} {W : Type ℓ} {R : Type κ} {G : R → Type ξ} where
  pub Returns-bind_returned {ν μ} :
      {A : Type ν} (F : A → Type μ) (first : Exec W A) (next : A → Exec W R)
      → Returns F first
      → ((a : A) → F a → Returns G (next a))
      → Returns G (first >>= next)
  unfolding ◌>>=◌
  Returns-bind_returned F first next hf hn = record {
    each = λ w. continued F G next (first w) (λ a f. (hn a f).each) (hf.each w);
  }

  pub Returns-bind {ν} :
      {A : Type ν} (first : Exec W A) (next : A → Exec W R)
      → ((a : A) → Returns G (next a))
      → Returns G (first >>= next)
  Returns-bind first next hn =
      Returns-bind_returned (λ _. Unit {0}) first next (record { each = λ w. anything (first w).0 })
        (λ a _. hn a)

  pub Returns-pure : (r : R) → G r → Returns {W = W} G (pure r)
  unfolding pure
  Returns-pure r g = record { each = λ w. g }

  pub Returns-raise : (e : Exception) → Returns {W = W} G (raise e)
  unfolding raise
  Returns-raise e = record { each = λ w. tt }

  pub Returns-on_option {ν} :
      {A : Type ν} (o : Option A) (otherwise : Exec W R) (then_do : A → Exec W R)
      → Returns G otherwise
      → ((a : A) → Returns G (then_do a))
      → Returns G (on_option o otherwise then_do)
  unfolding on_option
  Returns-on_option none otherwise then_do ho ht = ho
  Returns-on_option (some a) otherwise then_do ho ht = ht a

  pub Returns-try_except :
      (body : Exec W R) (rescue : Exception → Exec W R)
      → Returns G body
      → ((e : Exception) → Returns G (rescue e))
      → Returns G (try_except body rescue)
  unfolding try_except
  Returns-try_except body rescue hb hr = record {
    each = λ w. handled G rescue (body w) (λ e. (hr e).each) (hb.each w);
  }

module _ {ℓ κ ν ξ} {W : Type ℓ} {A : Type κ} {R : Type ν} {G : R → Type ξ} where
  -- A value that is lifted is known by its equation.
  pub Returns-lift_bind :
      (given : Result A) (next : A → Exec W R)
      → ((a : A) → given ≡ ok a → Returns G (next a))
      → Returns G (lift given >>= next)
  unfolding lift ◌>>=◌
  Returns-lift_bind (ok a) next hn = record { each = λ w. (hn a refl).each w }
  Returns-lift_bind (err e) next hn = record { each = λ w. tt }

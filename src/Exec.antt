-- ===== src/Exec.antt =====
-- Methods that mutate shared state and may raise: what was written before a raise stays written, so
-- the state comes back beside an exception too. `async` code is modelled between two of its waits
-- as one such action.
pub mod Preserves
pub mod Returns
pub mod Total
use cactus_runner.Prelude.{List, [], ◌∷◌, Option, none, some}

-- The exceptions that the program raises or tells apart. `external` is any other exception of the
-- database, the admin server or a library.
pub data Exception : Type 0 where
  unresolvable_variable_error : Exception
  unknown_action_error failed_action_error : Exception
  unknown_check_error failed_check_error : Exception
  no_active_test_procedure_error : Exception
  value_error key_error index_error type_error runtime_error content_type_error : Exception
  generic_exception http_exception external : Exception

pub data Result {ℓ} (A : Type ℓ) : Type ℓ where
  ok : A → Result A
  err : Exception → Result A

abbrev pub Exec {ℓ κ} : Type ℓ → Type κ → Type (ℓ ⊔ κ)
Exec S A = S → Result A × S

module _ {ℓ κ} {S : Type ℓ} {A : Type κ} where
  unfoldable pub pure : A → Exec S A
  pure a s = (ok a, s)

  unfoldable pub raise : Exception → Exec S A
  raise e s = (err e, s)

  unfoldable pub lift : Result A → Exec S A
  lift r s = (r, s)

  unfoldable pub gets : (S → A) → Exec S A
  gets f s = (ok (f s), s)

  abbrev pub handle_result : (Exception → Exec S A) → Result A × S → Result A × S
  handle_result f (ok a, s) = (ok a, s)
  handle_result f (err e, s) = f e s

  -- `try: m` with a handler for every exception; a handler raises again what it does not catch.
  unfoldable pub try_except : Exec S A → (Exception → Exec S A) → Exec S A
  try_except m f s = handle_result f (m s)

-- `if value is not None: … else: …`
unfoldable pub on_option {ℓ κ ν} :
    {S : Type ℓ} {A : Type κ} {B : Type ν} → Option A → Exec S B → (A → Exec S B) → Exec S B
on_option none otherwise then_do = otherwise
on_option (some a) otherwise then_do = then_do a

unfoldable pub modify {ℓ} : {S : Type ℓ} → (S → S) → Exec S (Unit {0})
modify f s = (ok tt, f s)

module _ {ℓ κ ν} {S : Type ℓ} {A : Type κ} {B : Type ν} where
  abbrev pub continue : (A → Exec S B) → Result A × S → Result B × S
  continue f (ok a, s) = f a s
  continue f (err e, s) = (err e, s)

  infixl 10 ◌>>=◌ ◌>>◌
  -- Opening this opens the ways to build an action too.
  unfoldable pub ◌>>=◌ : Exec S A → (A → Exec S B) → Exec S B
  unfolding pure raise lift gets modify try_except on_option
  ◌>>=◌ m f s = continue f (m s)

  abbrev pub ◌>>◌ : Exec S A → Exec S B → Exec S B
  m >> n = m >>= λ _. n

-- `for a in items: body(a)`
unfoldable pub for_each {ℓ κ} :
    {S : Type ℓ} {A : Type κ} → (A → Exec S (Unit {0})) → List A → Exec S (Unit {0})
for_each body [] = pure tt
for_each body (a ∷ rest) = body a >> for_each body rest

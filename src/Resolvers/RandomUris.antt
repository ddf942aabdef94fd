-- ===== src/Resolvers/RandomUris.antt =====
-- resolvers.py: the random URIs of a test procedure.
use cactus_runner.Prelude.{
  ℕ, zero, suc, String, true, false, List, none, some, ◌≡◌, arith, elem, eq_refl, Bool-cases, inl,
  inr, concat, subst,
}
use cactus_runner.Prelude.Dict
use cactus_runner.Prelude.Dict.{Dict, get-set}
use cactus_runner.Exec.{Result, ok, err, ◌>>=◌}
use cactus_runner.Models.{ActiveTestProcedure}
use cactus_runner.Services.{Services}
use cactus_runner.World.{World, observe, the_procedure, update_procedure}
use cactus_runner.Resolvers.{
  random_uri_attempts, set_random_uri, candidate_random_uri, draw_random_uri, resolve_random_uri,
}

-- The procedure that is active after a call holds this random URI under the key.
abbrev pub HoldsUri : (S : Services) → String → String → World S → Type 0
HoldsUri S key uri w =
    (p : ActiveTestProcedure) × (w.runner.active_test_procedure ≡ some p
      × Dict.get key p.random_uri_by_key ≡ some uri)

module _ (S : Services) (key : String) where
  -- What a call that returned leaves: the URI is new, and the procedure holds it.
  Drawn : List String → Result String × World S → Type 0
  Drawn existing (ok uri, w) = elem uri existing ≡ false × HoldsUri S key uri w
  Drawn existing (err e, w) = Unit {0}

  stored :
      (uri : String) (w : World S) (p : ActiveTestProcedure)
      → w.runner.active_test_procedure ≡ some p
      → HoldsUri S key uri (update_procedure S (set_random_uri key uri) w).1
  unfolding update_procedure set_random_uri
  stored uri w p h = (
    set_random_uri key uri p,
    (ground arith, ground (arith, get-set key key uri p.random_uri_by_key, eq_refl key)),
  )

  drawn :
      (left : ℕ) (existing : List String) (w : World S) (p : ActiveTestProcedure)
      → w.runner.active_test_procedure ≡ some p
      → Drawn existing (draw_random_uri S left key existing w)
  unfolding draw_random_uri candidate_random_uri observe update_procedure Drawn ◌>>=◌
  drawn zero existing w p h = tt
  drawn (suc left) existing w p h = elim (Bool-cases (elem uri existing)) [
    | inl e ↦ subst (Drawn existing) (again e) (drawn left existing next p h)
    | inr e ↦ subst (Drawn existing) (taken e) (e, stored uri next p h)
  ]
    where
      uri : String
      uri = concat "/" (S.token_urlsafe w.env).0

      next : World S
      next = record w { env = (S.token_urlsafe w.env).1 }

      again :
          elem uri existing ≡ true
          → draw_random_uri S left key existing next ≡ draw_random_uri S (suc left) key existing w
      again e = ground arith

      taken :
          elem uri existing ≡ false
          → (ok uri, (update_procedure S (set_random_uri key uri) next).1)
            ≡ draw_random_uri S (suc left) key existing w
      taken e = ground arith

  -- The first time that a random URI is resolved for a key, it is none of those of the other keys,
  -- and the procedure holds it: resolving the key again gives the same URI and changes nothing.
  pub resolve_random_uri-again :
      (uri : String) (w w₁ : World S) (p : ActiveTestProcedure)
      → w.runner.active_test_procedure ≡ some p
      → Dict.get key p.random_uri_by_key ≡ none
      → resolve_random_uri S key w ≡ (ok uri, w₁)
      → elem uri (Dict.values p.random_uri_by_key) ≡ false
        × resolve_random_uri S key w₁ ≡ (ok uri, w₁)
  unfolding resolve_random_uri the_procedure Drawn ◌>>=◌
  resolve_random_uri-again uri w w₁ p h g e = (facts.0, ground (arith, facts.1.1.0, facts.1.1.1))
    where
      draws :
          draw_random_uri S random_uri_attempts key (Dict.values p.random_uri_by_key) w
          ≡ (ok uri, w₁)
      draws = ground arith

      facts : Drawn (Dict.values p.random_uri_by_key) (ok uri, w₁)
      facts =
          subst (Drawn (Dict.values p.random_uri_by_key)) draws
            (drawn random_uri_attempts (Dict.values p.random_uri_by_key) w p h)

-- ===== src/Uri/Matching.antt =====
-- uri.py: what `does_endpoint_match` accepts, as a relation.
use cactus_runner.Prelude.{
  String, true, false, List, [], ◌∷◌, str_eq, ◌≡◌, ◌↔◌, arith, eq_iff, refl, Bool-cases, inl, inr,
}
use cactus_runner.Prelude.Strings.{contains}
use cactus_runner.Uri.{wildcard, components, components_match, does_endpoint_match}

-- The components of a path that an endpoint's components stand for: each is the same text, or any
-- text where the endpoint has a wildcard.
pub data Fits : List String → List String → Type 0 where
  end : Fits [] []
  any : (r m : String) (rs ms : List String) → m ≡ wildcard → Fits rs ms → Fits (r ∷ rs) (m ∷ ms)
  same : (r m : String) (rs ms : List String) → r ≡ m → Fits rs ms → Fits (r ∷ rs) (m ∷ ms)

-- Without a wildcard the texts are equal; with one the components fit.
pub data Matches : String → String → Type 0 where
  exact :
      (path match : String) → contains wildcard match ≡ false → path ≡ match → Matches path match
  by_components :
      (path match : String)
      → contains wildcard match ≡ true
      → Fits (components path) (components match)
      → Matches path match

accepted : (rs ms : List String) → Fits rs ms → components_match rs ms ≡ true
unfolding components_match
accepted _ _ end = refl
accepted _ _ (any r m rs ms e f) = ground (arith, eq_iff m wildcard, accepted rs ms f)
accepted _ _ (same r m rs ms e f) = ground (arith, eq_iff r m, accepted rs ms f)

fitting : (rs ms : List String) → components_match rs ms ≡ true → Fits rs ms
unfolding components_match
fitting [] [] h = end
fitting [] (m ∷ ms) h = ground arith
fitting (r ∷ rs) [] h = ground arith
fitting (r ∷ rs) (m ∷ ms) h = elim (Bool-cases (str_eq m wildcard)) [
  | inl e ↦ any r m rs ms ((eq_iff m wildcard).0 e) (fitting rs ms (ground arith))
  | inr e ↦ same r m rs ms ((eq_iff r m).0 (ground arith)) (fitting rs ms (ground arith))
]

-- An endpoint of a test definition matches the path of a request exactly if it has no wildcard and
-- is that path, or has one and the components of the two, empty ones left out, fit one by one.
pub does_endpoint_match-Matches :
    (path match : String) → (does_endpoint_match path match ≡ true) ↔ Matches path match
unfolding does_endpoint_match
does_endpoint_match-Matches path match = (to, from)
  where
    to : does_endpoint_match path match ≡ true → Matches path match
    to h = elim (Bool-cases (contains wildcard match)) [
      | inl e ↦ by_components path match e (fitting _ _ (ground arith))
      | inr e ↦ exact path match e ((eq_iff path match).0 (ground arith))
    ]

    from : Matches path match → does_endpoint_match path match ≡ true
    from (exact _ _ e p) = ground (arith, eq_iff path match)
    from (by_components _ _ e f) = ground (arith, accepted (components path) (components match) f)

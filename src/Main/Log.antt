-- ===== src/Main/Log.antt =====
-- handler.py: the request history and the client interactions in every state that is reached.
use cactus_runner.Prelude.{
  ℕ, suc, ◌+◌, false, ◌&&◌, List, [], ◌∷◌, ◌++◌, length, ◌≡◌, ◌≢◌, arith, Option-cases, inl, inr,
}
use cactus_runner.Models.{ActiveTestProcedure, ClientInteraction, RequestEntry, RunnerState}
use cactus_runner.Services.{Services}
use cactus_runner.World.{World, map_procedure}
use cactus_runner.Handler.Replies.{Config}
use cactus_runner.Handler.Start.{add_interaction}
use cactus_runner.Handler.Initialise.{activate}
use cactus_runner.Handler.Proxied.{is_proxied, touch, touch_interaction, record_request}
use cactus_runner.Handler.Control.{clear_runner}
use cactus_runner.Main.{Reachable, initial_runner}
use cactus_runner.Frame.Writes.{Closed-untouched}
use cactus_runner.Frame.Starting.{ClosedRequests}
use cactus_runner.Frame.Proxying.{Reachable-closed}

-- The ids count up from a number.
pub IsNumbered : ℕ → List RequestEntry → Type 0
IsNumbered n [] = Unit {0}
IsNumbered n (e ∷ es) = e.request_id ≡ n × IsNumbered (suc n) es

-- No two interactions after each other are proxied requests.
pub IsCompact : List ClientInteraction → Type 0
IsCompact [] = Unit {0}
IsCompact (x ∷ []) = Unit {0}
IsCompact (x ∷ y ∷ rest) =
    is_proxied x.interaction_type && is_proxied y.interaction_type ≡ false × IsCompact (y ∷ rest)

IsNumbered-snoc :
    (n : ℕ) (es : List RequestEntry) (e : RequestEntry)
    → IsNumbered n es
    → e.request_id ≡ n + length es
    → IsNumbered n (es ++ e ∷ [])
unfolding IsNumbered
IsNumbered-snoc n [] e h g = (omega arith, tt)
IsNumbered-snoc n (x ∷ es) e (h, hs) g = (h, IsNumbered-snoc (suc n) es e hs (omega arith))

IsCompact-append :
    (xs : List ClientInteraction) (new : ClientInteraction)
    → IsCompact xs
    → is_proxied new.interaction_type ≡ false
    → IsCompact (xs ++ new ∷ [])
unfolding IsCompact
IsCompact-append [] new h g = tt
IsCompact-append (x ∷ []) new h g = (ground arith, tt)
IsCompact-append (x ∷ y ∷ rest) new (h, hs) g = (h, IsCompact-append (y ∷ rest) new hs g)

IsCompact-touch :
    (xs : List ClientInteraction) (new : ClientInteraction)
    → IsCompact xs
    → IsCompact (touch new xs)
unfolding IsCompact touch
IsCompact-touch [] new h = tt
IsCompact-touch (x ∷ []) new h = ground arith
IsCompact-touch (x ∷ y ∷ []) new h = ground arith
IsCompact-touch (x ∷ y ∷ z ∷ rest) new (h, hs) = (h, IsCompact-touch (y ∷ z ∷ rest) new hs)

touched-nonempty : (xs : List ClientInteraction) (new : ClientInteraction) → touch new xs ≢ []
unfolding touch
touched-nonempty [] new = ground arith
touched-nonempty (x ∷ []) new = ground arith
touched-nonempty (x ∷ y ∷ rest) new = ground arith

-- What the log promises.
unfoldable pub IsLogged : RunnerState → Type 0
IsLogged r =
    IsNumbered 0 r.request_history × IsCompact r.client_interactions × r.client_interactions ≢ []

same_log :
    (f : ActiveTestProcedure → ActiveTestProcedure) (r : RunnerState)
    → IsLogged r
    → IsLogged (map_procedure f r)
unfolding IsLogged
same_log f r h = elim (Option-cases r.active_test_procedure) [
  | inl e ↦ ground arith
  | inr (p, e) ↦ ground arith
]

numbered_from_0 :
    (entry : ℕ → RequestEntry)
    → ((n : ℕ) → (entry n).request_id ≡ n)
    → (r : RunnerState)
    → (entry (length r.request_history)).request_id ≡ 0 + length r.request_history
numbered_from_0 entry e r = omega (arith, e (length r.request_history))

IsLogged-closed : (S : Services) → ClosedRequests S IsLogged
unfolding IsLogged IsNumbered add_interaction touch_interaction record_request activate clear_runner
IsLogged-closed S = record {
  engine = Closed-untouched S IsLogged same_log;
  started = λ now. same_log _;
  interaction =
      λ type e now r h. (h.0, IsCompact-append r.client_interactions _ h.1 e, ground arith);
  touched = λ now r h.
      (h.0, IsCompact-touch r.client_interactions _ h.1, touched-nonempty r.client_interactions _);
  recorded = λ entry e r h.
      (IsNumbered-snoc 0 r.request_history _ h.0 (numbered_from_0 entry e r), h.1, h.2);
  activated = λ p prepared r h. h;
  cleared = λ r h. (tt, h.1, h.2);
}

-- In every state that requests and rounds of the periodic task reach, whatever raised on the way:
-- the id of each request of the history is its position, the client interactions are not empty,
-- and no two of them after each other are proxied requests.
pub Reachable-IsLogged :
    (S : Services) (config : Config) (w : World S) → Reachable S config w → IsLogged w.runner
unfolding IsLogged initial_runner IsNumbered IsCompact
Reachable-IsLogged S config =
    Reachable-closed S config IsLogged (IsLogged-closed S) (λ now. (tt, tt, ground arith))

-- ===== src/Tests/Routing.antt =====
-- uri.py, check.py, resolvers.py and warning.py at concrete inputs.
use cactus_runner.Prelude.{true, false, List, [], ◌∷◌, ◌≡◌, ◌↔◌, refl, str_eq, elem, if◌then◌else◌}
use cactus_runner.Prelude.Dict
use cactus_runner.Exec.{ok}
use cactus_runner.Models.{ProxyRouteOverride}
use cactus_runner.World.{World}
use cactus_runner.Uri.{does_endpoint_match, calculate_proxy_uri, redirected, MountedProxyPathParts}
use cactus_runner.Uri.Matching.{Matches, does_endpoint_match-Matches}
use cactus_runner.Uri.Routes.{calculate_proxy_uri-put_override}
use cactus_runner.Actions.Routes.{put_override}
use cactus_runner.Resolvers.{resolve_random_uri}
use cactus_runner.Resolvers.RandomUris.{resolve_random_uri-again}
use cactus_runner.Tests.Samples.{services, fresh, procedure}

does_endpoint_match-Matches_example :
    (does_endpoint_match "/edev/1/der" "/edev/*/der" ≡ true) ↔ Matches "/edev/1/der" "/edev/*/der"
does_endpoint_match-Matches_example = does_endpoint_match-Matches "/edev/1/der" "/edev/*/der"

abbrev parts : MountedProxyPathParts
parts = record {
  mount_point = "/";
  proxy_prefix = "/";
  path = "/dcap";
  path_qs = "/dcap?s=0";
  query = ("s", "0") ∷ [];
  query_string = "s=0";
  method = "GET";
}

abbrev overrides : List ProxyRouteOverride
overrides = record { route = "/dcap"; proxy_to = "/old" } ∷ []

calculate_proxy_uri-put_override_example :
    calculate_proxy_uri "http://envoy:8000" parts (put_override "/dcap" "/new" overrides) ≡ (
      if str_eq "/dcap" parts.path
      then redirected "http://envoy:8000" parts.query_string
          (record { route = "/dcap"; proxy_to = "/new" })
      else calculate_proxy_uri "http://envoy:8000" parts overrides)
calculate_proxy_uri-put_override_example =
    calculate_proxy_uri-put_override "http://envoy:8000" parts "/dcap" "/new" overrides

resolve_random_uri-again_example :
    elem "/token" (Dict.values procedure.random_uri_by_key) ≡ false
    × resolve_random_uri services "1" (resolve_random_uri services "1" fresh).1
      ≡ (ok "/token", (resolve_random_uri services "1" fresh).1)
unfolding resolve_random_uri Dict.get cactus_runner.Handler.Setup.new_procedure
    cactus_runner.Exec.◌>>=◌ cactus_runner.World.the_procedure
    cactus_runner.Resolvers.draw_random_uri cactus_runner.Resolvers.candidate_random_uri
    cactus_runner.World.observe cactus_runner.World.update_procedure
resolve_random_uri-again_example =
    resolve_random_uri-again services "1" "/token" fresh (resolve_random_uri services "1" fresh).1
      procedure refl refl refl

-- ===== src/Uri.antt =====
-- uri.py: endpoints, paths and the address that a request is proxied to.
pub mod Matching
pub mod Routes
use cactus_runner.Prelude.{
  String, Bool, true, false, not, ◌&&◌, ◌||◌, List, [], ◌∷◌, str_eq, keep, map, concat,
  if◌then◌else◌,
}
use cactus_runner.Prelude.Dict.{Dict}
use cactus_runner.Prelude.Strings
use cactus_runner.Prelude.Strings.{contains, split, join, drop, rstrip, strip}
use cactus_runner.Models.{ProxyRouteOverride}
use text.Mathlib.Text.{starts_with}

abbrev pub wildcard : String
wildcard = "*"

-- list(filter(None, path.split("/")))
unfoldable pub components : String → List String
components path = keep (λ part. not (str_eq part "")) (split b'/' path)

-- The comparison component by component; False where the numbers of components differ.
unfoldable pub components_match : (request match : List String) → Bool
components_match [] [] = true
components_match (r ∷ rs) (m ∷ ms) = (str_eq m wildcard || str_eq r m) && components_match rs ms
components_match _ _ = false

unfoldable pub does_endpoint_match : (path match : String) → Bool
does_endpoint_match path match =
    if contains wildcard match
    then components_match (components path) (components match)
    else str_eq path match

-- The parts after the first, without their slashes; empty parts and "/" are left out.
unfoldable pub joined_rest : List String → String
joined_rest parts =
    join "/" (map (strip b'/') (keep (λ part. not (str_eq part "") && not (str_eq part "/")) parts))

unfoldable pub uri_path_join : List String → String
uri_path_join [] = ""
uri_path_join (first ∷ parts) =
    let rest = joined_rest parts in
    if str_eq rest "" then rstrip b'/' first else concat (rstrip b'/' first) (concat "/" rest)

-- What the runner reads of an incoming request.
pub record Request : Type 0 where
  pub method : String
  pub path : String
  pub path_qs : String
  pub query : Dict String
  pub query_string : String
  pub body : String
  pub certificate : String

pub record MountedProxyPathParts : Type 0 where
  pub mount_point : String
  pub proxy_prefix : String
  pub path : String
  pub path_qs : String
  pub query : Dict String
  pub query_string : String
  pub method : String

-- `if path.startswith(prefix): path = path[len(prefix):]`
unfoldable pub without_prefix : (prefix path : String) → String
without_prefix prefix path =
    if starts_with path prefix then drop (Strings.length prefix) path else path

-- A prefix other than "/" is taken off.
unfoldable pub unmounted : (prefix path : String) → String
unfolding without_prefix
unmounted prefix path = if str_eq prefix "/" then path else without_prefix prefix path

unfoldable pub uri_proxy_path_extract :
    (mount_point proxy_prefix : String) → Request → MountedProxyPathParts
unfolding unmounted
uri_proxy_path_extract mount_point proxy_prefix request = record {
  mount_point = mount_point;
  proxy_prefix = proxy_prefix;
  path = unmounted proxy_prefix (unmounted mount_point request.path);
  path_qs = unmounted proxy_prefix (unmounted mount_point request.path_qs);
  query = request.query;
  query_string = request.query_string;
  method = request.method;
}

unfoldable pub redirected : (server_url query_string : String) → ProxyRouteOverride → String
redirected server_url query_string o =
    let uri = uri_path_join (server_url ∷ o.proxy_to ∷ []) in
    if str_eq query_string "" then uri else concat uri (concat "?" query_string)

unfoldable pub calculate_proxy_uri :
    String → MountedProxyPathParts → List ProxyRouteOverride → String
calculate_proxy_uri server_url proxy [] = uri_path_join (server_url ∷ proxy.path_qs ∷ [])
calculate_proxy_uri server_url proxy (o ∷ rest) =
    if str_eq o.route proxy.path
    then redirected server_url proxy.query_string o
    else calculate_proxy_uri server_url proxy rest

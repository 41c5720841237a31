-- ===== src/Server/Routes.antt =====
-- NewRouteHandler and routeHandler.ServeHTTP, which tries the routes in order.
pub mod Fallthrough
pub mod Confidential
pub mod Growth
use hawk_apiserver.Prelude.{
  ℕ, suc, Bool, true, false, not, ◌&&◌, List, [], ◌∷◌, ◌++◌, Option, none, some, ◌==◌, text_eq,
  if◌then◌else◌,
}
use hawk_apiserver.Text.{Text, codes, has_prefix}
use hawk_apiserver.Outcome.{Outcome, done, panic, ◌>>=◌}
use hawk_apiserver.Http.{ResponseWriter, Request, http_error}
use hawk_apiserver.AsyncCib.{empty_cib, get, version}
use hawk_apiserver.Server.Env.{Env, Config, ConfigRoute, RouteHandler}
use hawk_apiserver.Server.ApiRoutes.{serve_api}
use hawk_apiserver.Server.Monitor.{serve_monitor}
use hawk_apiserver.Server.Files.{serve_file}
use hawk_apiserver.Server.Proxies.{serve_proxy}

unfoldable pub new_route_handler : Config → RouteHandler
new_route_handler config = record {
  cib = empty_cib;
  config = config;
  proxies = [];
  next_address = 0;
}

-- What a route's handler names; a file or proxy route without a target is none of them.
pub data Kind : Type 0 where
  api : Kind
  monitor : Kind
  file : Text → Kind
  proxy : Text → Kind
  ignored : Kind

abbrev with_target : (Text → Kind) → Option Text → Kind
with_target k none = ignored
with_target k (some target) = k target

unfoldable pub kind : ConfigRoute → Kind
kind route =
    if route.handler == codes "api/v1"
    then api
    else if route.handler == codes "monitor"
    then monitor
    else if route.handler == codes "file"
    then with_target file route.target
    else if route.handler == codes "proxy"
    then with_target proxy route.target
    else ignored

-- What one round of the loop ends with: the writer, the handler, and whether the request is served.
abbrev pub Round : Type 0 → Type 0
Round W = Outcome (W × RouteHandler × Bool)

module _ {W : Type 0} ⦃i : ResponseWriter W⦄ (env : Env W) where
  abbrev keep : RouteHandler → Outcome (W × Bool) → Round W
  keep handler o = do r ← o; done (r.0, handler, r.1)

  -- `address` is that of the loop's variable, to which `&route` points in every round.
  unfoldable pub try_kind : ℕ → RouteHandler → W → Request → ConfigRoute → Kind → Round W
  try_kind address handler w r route api = keep handler (serve_api env (get handler.cib) w r route)
  try_kind address handler w r route monitor =
      keep handler (done (serve_monitor env.handed (version handler.cib) w r route))
  try_kind address handler w r route (file target) = keep handler (serve_file env target w r)
  try_kind address handler w r route (proxy target) = do
    s ← serve_proxy env handler address target w r
    done (s.0, s.1, true)
  try_kind address handler w r route ignored = done (w, handler, false)

  unfoldable pub try_route : ℕ → RouteHandler → W → Request → ConfigRoute → Round W
  unfolding kind try_kind
  try_route address handler w r route =
      if not (has_prefix r.url.path route.path)
      then done (w, handler, false)
      else try_kind address handler w r route (kind route)

  unfoldable pub unmatched : Request → W → W
  unmatched r w = http_error (codes "Unmatched request: " ++ r.url.path ++ codes ".") 500 w

  unfoldable pub try_routes :
      ℕ → RouteHandler → W → Request → List ConfigRoute → Outcome (W × RouteHandler)
  unfolding try_route unmatched
  try_routes address handler w r [] = done (unmatched r w, handler)
  try_routes address handler w r (route ∷ routes) = do
    round ← try_route address handler w r route
    let later = try_routes address round.1 round.0 r routes
    if round.2 then done (round.0, round.1) else later

  -- Each request has a loop variable of its own, at an address that is not in use.
  unfoldable pub serve_http : RouteHandler → W → Request → Outcome (W × RouteHandler)
  unfolding try_routes
  serve_http handler w r =
      try_routes handler.next_address (record handler { next_address = suc handler.next_address }) w
        r handler.config.route

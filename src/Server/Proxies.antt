-- ===== src/Server/Proxies.antt =====
-- routeHandler.proxyForRoute and serveProxy.
pub mod Cache
use hawk_apiserver.Prelude.{
  ℕ, Bool, true, false, List, [], ◌∷◌, Option, none, some, ◌==◌, nat_eq, if◌then◌else◌,
}
use hawk_apiserver.Text.{Text, codes}
use hawk_apiserver.Outcome.{Outcome, done, panic, ◌>>=◌}
use hawk_apiserver.Http.{ResponseWriter, Request, Url, http_error}
use hawk_apiserver.Proxy.Transport.{
  ReverseProxy, new_single_host_reverse_proxy, default_max_idle_conns_per_host,
}
use hawk_apiserver.Proxy.Serve.{serve_http}
use hawk_apiserver.Server.Env.{Env, RouteHandler, ConfigRoute}

-- `handler.proxies[route]`, by the address of the route
unfoldable pub find_proxy : ℕ → List (ℕ × ReverseProxy) → Option ReverseProxy
find_proxy a [] = none
find_proxy a ((b, p) ∷ ps) = if b == a then some p else find_proxy a ps

-- `handler.proxies[route] = proxy`
unfoldable pub store_proxy : ℕ → ReverseProxy → List (ℕ × ReverseProxy) → List (ℕ × ReverseProxy)
store_proxy a p [] = (a, p) ∷ []
store_proxy a p ((b, q) ∷ ps) = if b == a then (a, p) ∷ ps else (b, q) ∷ store_proxy a p ps

module _ {W : Type 0} ⦃i : ResponseWriter W⦄ (env : Env W) where
  -- The branch of a route that has no proxy yet.
  unfoldable pub add_proxy : RouteHandler → ℕ → Option Url → RouteHandler × Option ReverseProxy
  unfolding store_proxy
  add_proxy handler route none = (handler, none)
  add_proxy handler route (some url) =
      let proxy =
        new_single_host_reverse_proxy env.url_string url [] default_max_idle_conns_per_host in
      (record handler { proxies = store_proxy route proxy handler.proxies }, some proxy)

  -- `route` is the pointer, and `target` what its Target points to.
  unfoldable pub proxy_for_route : RouteHandler → ℕ → Text → RouteHandler × Option ReverseProxy
  unfolding find_proxy add_proxy
  proxy_for_route handler route target = elim (find_proxy route handler.proxies) [
    | some proxy ↦ (handler, some proxy)
    | none ↦ add_proxy handler route (env.parse_url target)
  ]

  -- The error that the proxy returns is dropped.
  unfoldable pub through_proxy : Option ReverseProxy → W → Request → Outcome W
  through_proxy none w r = done (http_error (codes "Bad web server configuration.") 500 w)
  through_proxy (some rproxy) w r = do
    served ← serve_http env.url_string env.round_trip rproxy w r
    done served.0

  unfoldable pub serve_proxy : RouteHandler → ℕ → Text → W → Request → Outcome (W × RouteHandler)
  unfolding proxy_for_route through_proxy
  serve_proxy handler route target w r =
      let (handler', rproxy) = proxy_for_route handler route target in
      (do w' ← through_proxy rproxy w r; done (w', handler'))

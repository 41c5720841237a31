-- ===== src/Server/Routes/Confidential.antt =====
-- What an unauthorised client learns of the CIB.
use hawk_apiserver.Prelude.{
  ℕ, suc, ◌≡◌, refl, inl, inr, Bool, true, false, List, [], ◌∷◌, if◌then◌else◌, Bool-cases, arith,
}
use hawk_apiserver.Text.{Text, has_prefix}
use hawk_apiserver.Outcome.{Outcome, done, panic, ◌>>=◌}
use hawk_apiserver.Http.{ResponseWriter, Request}
use hawk_apiserver.AsyncCib.{get, version}
use hawk_apiserver.Auth.{check_hawk_auth_methods}
use hawk_apiserver.Server.Env.{Env, ConfigRoute, RouteHandler}
use hawk_apiserver.Server.ApiRoutes.{serve_api}
use hawk_apiserver.Server.Files.{serve_file}
use hawk_apiserver.Server.Proxies.{serve_proxy, proxy_for_route}
use hawk_apiserver.Server.Routes.{
  Kind, api, monitor, file, proxy, ignored, kind, try_kind, try_route, try_routes, serve_http,
  Round, keep,
}

-- The handler with another document, of the same version.
abbrev pub with_doc : Text → RouteHandler → RouteHandler
with_doc doc h = record h { cib = record h.cib { xmldoc = doc } }

abbrev pub map_handler :
    {W : Type 0}
    → (RouteHandler → RouteHandler)
    → Outcome (W × RouteHandler)
    → Outcome (W × RouteHandler)
map_handler f (done (w, h)) = done (w, f h)
map_handler f panic = panic

abbrev map_round : {W : Type 0} → (RouteHandler → RouteHandler) → Round W → Round W
map_round f (done (w, h, b)) = done (w, f h, b)
map_round f panic = panic

module _ {W : Type 0} ⦃i : ResponseWriter W⦄ (env : Env W) (doc : Text) where
  proxy_for_route-with_doc :
      (h : RouteHandler) (a : ℕ) (target : Text)
      → proxy_for_route env (with_doc doc h) a target
        ≡ (with_doc doc (proxy_for_route env h a target).0, (proxy_for_route env h a target).1)
  unfolding proxy_for_route
  proxy_for_route-with_doc h a target = ground arith

  serve_proxy-with_doc :
      (h : RouteHandler) (a : ℕ) (target : Text) (w : W) (r : Request)
      → serve_proxy env (with_doc doc h) a target w r
        ≡ map_handler (with_doc doc) (serve_proxy env h a target w r)
  unfolding serve_proxy
  serve_proxy-with_doc h a target w r = ground (arith, proxy_for_route-with_doc h a target)

  keep_map :
      (h : RouteHandler) (o : Outcome (W × Bool))
      → keep env (with_doc doc h) o ≡ map_round (with_doc doc) (keep env h o)
  keep_map h (done x) = refl
  keep_map h panic = refl

  abbrev proxied : Outcome (W × RouteHandler) → Round W
  proxied o = o >>= λ s. done (s.0, s.1, true)

  proxied_map :
      (o : Outcome (W × RouteHandler))
      → proxied (map_handler (with_doc doc) o) ≡ map_round (with_doc doc) (proxied o)
  proxied_map (done x) = refl
  proxied_map panic = refl

  module _ (r : Request)
      (denied : check_hawk_auth_methods env.attrd_updater env.hawk_chkpwd r ≡ false) where
    serve_api-denied :
        (c d : Text) (w : W) (route : ConfigRoute)
        → serve_api env c w r route ≡ serve_api env d w r route
    unfolding serve_api
    serve_api-denied c d w route = rw denied

    try_kind-with_doc :
        (a : ℕ) (h : RouteHandler) (w : W) (route : ConfigRoute) (k : Kind)
        → try_kind env a (with_doc doc h) w r route k
          ≡ map_round (with_doc doc) (try_kind env a h w r route k)
    unfolding try_kind get version
    try_kind-with_doc a h w route api =
        rw (serve_api-denied doc h.cib.xmldoc w route)
          (keep_map h (serve_api env h.cib.xmldoc w r route))
    try_kind-with_doc a h w route monitor = refl
    try_kind-with_doc a h w route (file target) = keep_map h (serve_file env target w r)
    try_kind-with_doc a h w route (proxy target) =
        rw (serve_proxy-with_doc h a target w r) (proxied_map (serve_proxy env h a target w r))
    try_kind-with_doc a h w route ignored = refl

    try_route-with_doc :
        (a : ℕ) (h : RouteHandler) (w : W) (route : ConfigRoute)
        → try_route env a (with_doc doc h) w r route
          ≡ map_round (with_doc doc) (try_route env a h w r route)
    unfolding try_route
    try_route-with_doc a h w route = elim (Bool-cases (has_prefix r.url.path route.path)) [
      | inl p ↦ rw p (try_kind-with_doc a h w route (kind route))
      | inr p ↦ rw p
    ]

    abbrev onward : ℕ → List ConfigRoute → Round W → Outcome (W × RouteHandler)
    onward a routes o = o >>= λ round.
        let later = try_routes env a round.1 round.0 r routes in
        if round.2 then done (round.0, round.1) else later

    onward_map :
        (a : ℕ) (routes : List ConfigRoute)
        → ((h : RouteHandler) (w : W)
            → try_routes env a (with_doc doc h) w r routes
              ≡ map_handler (with_doc doc) (try_routes env a h w r routes))
        → (o : Round W)
        → onward a routes (map_round (with_doc doc) o)
          ≡ map_handler (with_doc doc) (onward a routes o)
    onward_map a routes ih (done (w, h, true)) = refl
    onward_map a routes ih (done (w, h, false)) = ih h w
    onward_map a routes ih panic = refl

    try_routes-with_doc :
        (a : ℕ) (h : RouteHandler) (w : W) (routes : List ConfigRoute)
        → try_routes env a (with_doc doc h) w r routes
          ≡ map_handler (with_doc doc) (try_routes env a h w r routes)
    unfolding try_routes
    try_routes-with_doc a h w [] = refl
    try_routes-with_doc a h w (route ∷ routes) = rw (try_route-with_doc a h w route) (
        onward_map a routes (λ h' w'. try_routes-with_doc a h' w' routes)
          (try_route env a h w r route))

    -- An unauthorised request is answered alike whatever document the server holds, and leaves the
    -- same handler behind but for that document: the outcome depends on it on no route.
    pub serve_http_confidential :
        (h : RouteHandler) (w : W)
        → serve_http env (with_doc doc h) w r ≡ map_handler (with_doc doc) (serve_http env h w r)
    unfolding serve_http
    serve_http_confidential h w =
        try_routes-with_doc h.next_address (record h { next_address = suc h.next_address }) w
          h.config.route

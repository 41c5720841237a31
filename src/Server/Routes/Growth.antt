-- ===== src/Server/Routes/Growth.antt =====
-- How the map of proxies grows with the requests.
use hawk_apiserver.Prelude.{
  ℕ, zero, suc, ◌+◌, ◌≡◌, refl, true, List, ◌∷◌, some, length, arith, ap, subst, sym, ◌∙◌,
}
use hawk_apiserver.Text.{Text, has_prefix}
use hawk_apiserver.Outcome.{Outcome, done, panic, ◌>>=◌}
use hawk_apiserver.Http.{ResponseWriter, Request, Url}
use hawk_apiserver.Server.Env.{Env, Config, ConfigRoute, RouteHandler}
use hawk_apiserver.Server.Proxies.{add_proxy, through_proxy}
use hawk_apiserver.Server.Proxies.Cache.{
  Below, length-store_proxy, store_proxy-Below, through_new, serve_proxy-Below,
}
use hawk_apiserver.Server.Routes.{
  proxy, kind, try_kind, try_route, try_routes, serve_http, new_route_handler,
}

-- The keys of the map are addresses that are in use.
abbrev pub IsFresh : RouteHandler → Type 0
IsFresh h = Below h.next_address h.proxies

module _ {W : Type 0} ⦃i : ResponseWriter W⦄ (env : Env W) where
  -- The first route is a proxy whose target is a URL.
  pub record Proxied (h : RouteHandler) (r : Request) : Type 0 where
    pub route : ConfigRoute
    pub routes : List ConfigRoute
    pub target : Text
    pub url : Url
    pub first : h.config.route ≡ route ∷ routes
    pub matches : has_prefix r.url.path route.path ≡ true
    pub is_proxy : kind route ≡ proxy target
    pub parsed : env.parse_url target ≡ some url

  try_routes-proxy :
      (h : RouteHandler) (a : ℕ) (w : W) (r : Request) (route : ConfigRoute)
      (routes : List ConfigRoute) (target : Text) (url : Url)
      → has_prefix r.url.path route.path ≡ true
      → kind route ≡ proxy target
      → Below a h.proxies
      → env.parse_url target ≡ some url
      → try_routes env a h w r (route ∷ routes) ≡ through_new env h a url w r
  unfolding try_routes try_route try_kind
  try_routes-proxy h a w r route routes target url m k fresh e =
      rw (m, k, serve_proxy-Below env h a target url w r fresh e) (ground arith)

  serve_http-Proxied :
      (h : RouteHandler) (w : W) (r : Request) (p : Proxied h r)
      → IsFresh h
      → serve_http env h w r
        ≡ through_new env (record h { next_address = suc h.next_address }) h.next_address p.url w r
  unfolding serve_http
  serve_http-Proxied h w r p fresh =
      let h' : RouteHandler = record h { next_address = suc h.next_address } in
      ap (λ rs. try_routes env h.next_address h' w r rs) p.first
      ∙ try_routes-proxy h' h.next_address w r p.route p.routes p.target p.url p.matches p.is_proxy
          fresh p.parsed

  bound :
      (o : Outcome W) (g h : RouteHandler) (w : W)
      → ◌>>=◌ {B = W × RouteHandler} o (λ v. done (v, g)) ≡ done (w, h)
      → g ≡ h
  bound (done v) g h w e = cc
  bound panic g h w e = cc

  -- One more entry, under an address that is in use from now on, and the same configuration.
  abbrev pub Grows : RouteHandler → RouteHandler → Type 0
  Grows h h' = (length h'.proxies ≡ suc (length h.proxies)) × IsFresh h' × (h'.config ≡ h.config)

  add_proxy-Grows :
      (h : RouteHandler) (url : Url)
      → IsFresh h
      → Grows h
          (add_proxy env
            (record h { next_address = suc h.next_address })
            h.next_address
            (some url)).0
  unfolding add_proxy
  add_proxy-Grows h url fresh = (
    length-store_proxy h.next_address _ h.proxies fresh,
    store_proxy-Below h.next_address _ h.proxies fresh,
    refl,
  )

  -- On a handler whose map holds only addresses in use, a request that ends normally and that the
  -- first route passes on to a proxy adds one proxy to the map, leaves only addresses in use, and
  -- keeps the configuration.
  serve_http-Grows :
      (h h' : RouteHandler) (w w' : W) (r : Request)
      → IsFresh h
      → Proxied h r
      → serve_http env h w r ≡ done (w', h')
      → Grows h h'
  serve_http-Grows h h' w w' r fresh p e =
      let at : RouteHandler = record h { next_address = suc h.next_address } in
      subst (Grows h)
        (bound (through_proxy env (add_proxy env at h.next_address (some p.url)).1 w r) _ h' w'
          (sym (serve_http-Proxied h w r p fresh) ∙ e))
        (add_proxy-Grows h p.url fresh)

  -- `n` such requests, one after the other.
  pub data Requests (h : RouteHandler) : ℕ → RouteHandler → Type 0 where
    none_yet : Requests h zero h
    one_more :
        {n : ℕ} {h' h'' : RouteHandler} (w w' : W) (r : Request)
        → Requests h n h'
        → Proxied h' r
        → serve_http env h' w r ≡ done (w', h'')
        → Requests h (suc n) h''

  Requests-IsFresh :
      (h : RouteHandler) {n : ℕ} (h' : RouteHandler)
      → IsFresh h
      → Requests h n h'
      → (length h'.proxies ≡ length h.proxies + n) × IsFresh h'
  Requests-IsFresh h h' fresh none_yet = (omega arith, fresh)
  Requests-IsFresh h h' fresh (one_more {h' = g} w w' r rs p e) =
      let (counted, fresh') = Requests-IsFresh h g fresh rs in
      let (more, fresher, _) = serve_http-Grows g h' w w' r fresh' p e in (omega arith, fresher)

  -- After n requests, one after the other, that each end normally and that the first route passes on
  -- to a proxy, the map of a new handler holds n proxies.
  pub proxies_grow :
      (n : ℕ) (config : Config) (h : RouteHandler)
      → Requests (new_route_handler config) n h
      → length h.proxies ≡ n
  unfolding new_route_handler
  proxies_grow n config h rs =
      omega (arith, (Requests-IsFresh (new_route_handler config) h tt rs).0)

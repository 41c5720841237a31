-- ===== src/Server/Proxies/Cache.antt =====
-- The cache of proxies. A request's routes have an address that no earlier request had, so a lookup
-- never hits and each proxied request leaves one more proxy behind.
use hawk_apiserver.Prelude.{
  ℕ, suc, ◌<◌, ◌≡◌, refl, false, List, [], ◌∷◌, none, some, nat_eq, length, arith, All, nat_beq,
}
use hawk_apiserver.Text.{Text}
use hawk_apiserver.Outcome.{Outcome, done, ◌>>=◌}
use hawk_apiserver.Http.{ResponseWriter, Request, Url}
use hawk_apiserver.Proxy.Transport.{ReverseProxy}
use hawk_apiserver.Server.Env.{Env, RouteHandler}
use hawk_apiserver.Server.Proxies.{
  find_proxy, store_proxy, add_proxy, proxy_for_route, serve_proxy, through_proxy,
}

-- Every key is below the address.
abbrev pub Below : ℕ → List (ℕ × ReverseProxy) → Type 0
Below n ps = All (λ p. p.0 < n) ps

pub find_proxy-Below : (n : ℕ) (ps : List (ℕ × ReverseProxy)) → Below n ps → find_proxy n ps ≡ none
unfolding find_proxy
find_proxy-Below n [] _ = refl
find_proxy-Below n ((a, p) ∷ ps) (h, hs) = ground (arith, find_proxy-Below n ps hs)

pub length-store_proxy :
    (n : ℕ) (p : ReverseProxy) (ps : List (ℕ × ReverseProxy))
    → Below n ps
    → length (store_proxy n p ps) ≡ suc (length ps)
unfolding store_proxy
length-store_proxy n p [] _ = refl
length-store_proxy n p ((a, q) ∷ ps) (h, hs) = ground (arith, length-store_proxy n p ps hs)

Below-suc : (n : ℕ) (ps : List (ℕ × ReverseProxy)) → Below n ps → Below (suc n) ps
Below-suc n [] _ = tt
Below-suc n ((a, q) ∷ ps) (h, hs) = (omega arith, Below-suc n ps hs)

pub store_proxy-Below :
    (n : ℕ) (p : ReverseProxy) (ps : List (ℕ × ReverseProxy))
    → Below n ps
    → Below (suc n) (store_proxy n p ps)
unfolding store_proxy
store_proxy-Below n p [] _ = omega arith
store_proxy-Below n p ((a, q) ∷ ps) (h, hs) =
    let other : nat_beq a n ≡ false = ground arith in
    rw other (omega arith, store_proxy-Below n p ps hs)

module _ {W : Type 0} ⦃i : ResponseWriter W⦄ (env : Env W) where
  -- What serving through a proxy for a URL comes to.
  abbrev pub through_new : RouteHandler → ℕ → Url → W → Request → Outcome (W × RouteHandler)
  through_new h a url w r = through_proxy env (add_proxy env h a (some url)).1 w r >>= λ w'.
      done (w', (add_proxy env h a (some url)).0)

  proxy_for_route-Below :
      (h : RouteHandler) (a : ℕ) (target : Text) (url : Url)
      → Below a h.proxies
      → env.parse_url target ≡ some url
      → proxy_for_route env h a target ≡ add_proxy env h a (some url)
  unfolding proxy_for_route
  proxy_for_route-Below h a target url fresh e =
      rw (find_proxy-Below a h.proxies fresh, proxy_for_route, e)

  pub serve_proxy-Below :
      (h : RouteHandler) (a : ℕ) (target : Text) (url : Url) (w : W) (r : Request)
      → Below a h.proxies
      → env.parse_url target ≡ some url
      → serve_proxy env h a target w r ≡ through_new h a url w r
  unfolding serve_proxy
  serve_proxy-Below h a target url w r fresh e = rw (proxy_for_route-Below h a target url fresh e)

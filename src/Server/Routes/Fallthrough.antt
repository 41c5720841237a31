-- ===== src/Server/Routes/Fallthrough.antt =====
-- How a request falls through the routes.
use hawk_apiserver.Prelude.{
  ℕ, ◌≡◌, refl, ◌⊎◌, inl, inr, false, List, [], ◌∷◌, ◌++◌, All, Bool-cases,
}
use hawk_apiserver.Text.{has_prefix}
use hawk_apiserver.Outcome.{done}
use hawk_apiserver.Http.{ResponseWriter, Request}
use hawk_apiserver.Server.Env.{Env, ConfigRoute, RouteHandler}
use hawk_apiserver.Server.Routes.{ignored, kind, try_route, try_routes}

-- A route that does not take part in a request: its path is no prefix, or it names no handler.
abbrev pub IsSkipped : Request → ConfigRoute → Type 0
IsSkipped r route = (has_prefix r.url.path route.path ≡ false) ⊎ (kind route ≡ ignored)

module _ {W : Type 0} ⦃i : ResponseWriter W⦄ (env : Env W) where
  try_route-IsSkipped :
      (a : ℕ) (h : RouteHandler) (w : W) (r : Request) (route : ConfigRoute)
      → IsSkipped r route
      → try_route env a h w r route ≡ done (w, h, false)
  unfolding try_route
  try_route-IsSkipped a h w r route (inl e) = rw e
  try_route-IsSkipped a h w r route (inr e) = elim (Bool-cases (has_prefix r.url.path route.path)) [
    | inl p ↦ rw (p, e)
    | inr p ↦ rw p
  ]

  -- Routes that take no part in a request may be left out at the front of the table.
  pub try_routes-append :
      (a : ℕ) (h : RouteHandler) (w : W) (r : Request) (before rest : List ConfigRoute)
      → All (IsSkipped r) before
      → try_routes env a h w r (before ++ rest) ≡ try_routes env a h w r rest
  unfolding try_routes
  try_routes-append a h w r [] rest _ = refl
  try_routes-append a h w r (route ∷ before) rest (s, ss) =
      rw (try_route-IsSkipped a h w r route s) (try_routes-append a h w r before rest ss)

-- ===== src/Server/ApiRoutes.antt =====
-- routeHandler.serveAPI
use hawk_apiserver.Prelude.{Bool, true, not, ◌++◌, ◌==◌, text_eq, if◌then◌else◌}
use hawk_apiserver.Text.{Text, codes, has_prefix}
use hawk_apiserver.Outcome.{Outcome, done}
use hawk_apiserver.Http.{ResponseWriter, Request, http_error, set_header, write_string}
use hawk_apiserver.Auth.{check_hawk_auth_methods}
use hawk_apiserver.Api.Nodes.{handle_api_nodes}
use hawk_apiserver.Api.Resources.{handle_api_resources}
use hawk_apiserver.Api.Constraints.{handle_api_constraints}
use hawk_apiserver.Api.Cluster.{handle_api_cluster}
use hawk_apiserver.Server.Env.{Env, ConfigRoute}

abbrev pub api_prefix : ConfigRoute → Text
api_prefix route = route.path ++ codes "/configuration/"

-- The pattern for a section and its items.
abbrev pub item_pattern : Text → Text
item_pattern section = section ++ codes "(/?|/[a-zA-Z0-9]+/?)$"

module _ {W : Type 0} ⦃i : ResponseWriter W⦄ where
  unfoldable pub send_cib : Text → W → W
  send_cib xmldoc w =
      write_string xmldoc (set_header (codes "Content-Type") (codes "application/xml") w)

  unfoldable pub no_api_route : Request → W → W
  no_api_route r w = http_error (codes "[api/v1]: No route for " ++ r.url.path ++ codes ".") 500 w

module _ {W : Type 0} ⦃i : ResponseWriter W⦄ (env : Env W) where
  open env use {unmarshal, match_string}

  -- The branches of an authorised GET, in the order of the source.
  unfoldable pub serve_get : Text → W → Request → ConfigRoute → Outcome (W × Bool)
  unfolding send_cib no_api_route
  serve_get cib_data w r route =
      let prefix = api_prefix route in
      if match_string (prefix ++ item_pattern (codes "nodes")) r.url.path
      then handle_api_nodes unmarshal w r cib_data
      else if match_string (prefix ++ item_pattern (codes "resources")) r.url.path
      then handle_api_resources unmarshal w r cib_data
      else if match_string (prefix ++ codes "cluster/?$") r.url.path
      then handle_api_cluster unmarshal w r cib_data
      else if match_string (prefix ++ item_pattern (codes "constraints")) r.url.path
      then handle_api_constraints unmarshal w r cib_data
      else if has_prefix r.url.path (prefix ++ codes "cib.xml")
      then done (send_cib cib_data w, true)
      else done (no_api_route r w, true)

  unfoldable pub serve_api : Text → W → Request → ConfigRoute → Outcome (W × Bool)
  unfolding serve_get no_api_route
  serve_api cib_data w r route =
      if not (check_hawk_auth_methods env.attrd_updater env.hawk_chkpwd r)
      then done (http_error (codes "Unauthorized request.") 401 w, true)
      else if r.method == codes "GET"
      then serve_get cib_data w r route
      else done (no_api_route r w, true)

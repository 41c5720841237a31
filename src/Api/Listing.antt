-- ===== src/Api/Listing.antt =====
-- Requests for a whole section, or for one of its items, when the API is served below /api/v1.
use hawk_apiserver.Prelude.{◌≡◌, ◌≢◌, ◌++◌, Option, some, false, All, arith, ◌∷◌}
use hawk_apiserver.Text.{Text, codes}
use hawk_apiserver.Text.Laws.{IsTail}
use hawk_apiserver.Outcome.{done}
use hawk_apiserver.Cib.{Cib, Configuration, Nodes, Resources}
use hawk_apiserver.Http.{ResponseWriter, Request, http_error}
use hawk_apiserver.Api.Url.{url_list, no_route}
use hawk_apiserver.Api.Reply.{respond, as_json}
use hawk_apiserver.Api.Paths.{url_list-section}
use hawk_apiserver.Api.Nodes.{handle_api_nodes}
use hawk_apiserver.Api.Nodes.Lookup.{find_node-eq-none}
use hawk_apiserver.Api.Nodes.Answer.{handle_api_nodes_lem}
use hawk_apiserver.Api.Resources.{handle_api_resources}
use hawk_apiserver.Api.Resources.Lookup.{chosen}
use hawk_apiserver.Api.Resources.Answer.{handle_api_resources_lem}

module _ {W : Type 0} ⦃i : ResponseWriter W⦄ (unmarshal : Text → Option Cib) (w : W) (r : Request)
    (cib_data : Text) (cib : Cib) (conf : Configuration) (tail : Text)
    (parsed : unmarshal cib_data ≡ some cib) (configured : cib.configuration ≡ some conf)
    (is_tail : IsTail b'/' tail) where
  -- For a document with a nodes section, below /api/v1/configuration/nodes every path, also that of the section itself or of an existing
  -- node, is answered by the error for an unknown node, unless a node is called "nodes".
  pub handle_api_nodes_default :
      (s : Nodes)
      → conf.nodes ≡ some s
      → r.url.path ≡ codes "/api/v1/configuration/nodes" ++ tail
      → All (λ n. (n.uname ≢ codes "nodes") × (n.id ≢ codes "nodes")) s.node
      → handle_api_nodes unmarshal w r cib_data
        ≡ done (http_error (no_route r.url.path) 500 (as_json w), false)
  handle_api_nodes_default s found path unnamed =
      let (ps, e) = url_list-section b'n' (codes "odes") tail (omega arith) is_tail in
      let at : url_list r.url.path
          ≡ codes "api" ∷ codes "v1" ∷ codes "configuration" ∷ codes "nodes" ∷ ps =
        rw path e in
      rw (
        handle_api_nodes_lem unmarshal w r cib_data cib conf s parsed configured found,
        at,
        find_node-eq-none (codes "nodes") s.node unnamed,
      )

  -- For a document with a resources section, below /api/v1/configuration/resources every path is answered alike: by the resource called
  -- "resources", if there is one, and else by the error for an unknown resource.
  handle_api_resources_default :
      (s : Resources)
      → conf.resources ≡ some s
      → r.url.path ≡ codes "/api/v1/configuration/resources" ++ tail
      → handle_api_resources unmarshal w r cib_data
        ≡ respond r.url.path (as_json w) (chosen (codes "resources") s)
  handle_api_resources_default s found path =
      let (ps, e) = url_list-section b'r' (codes "esources") tail (omega arith) is_tail in
      let at : url_list r.url.path
          ≡ codes "api" ∷ codes "v1" ∷ codes "configuration" ∷ codes "resources" ∷ ps =
        rw path e in
      rw (handle_api_resources_lem unmarshal w r cib_data cib conf s parsed configured found, at)

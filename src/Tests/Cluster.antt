-- ===== src/Tests/Cluster.antt =====
-- The handlers of the API on a cluster with one node and one resource.
use hawk_apiserver.Prelude.{◌≡◌, refl, ◌⊎◌, ◌↔◌, inr, true, false, [], ◌∷◌, arith}
use hawk_apiserver.Text.{codes}
use hawk_apiserver.Outcome.{done, ◌>>=◌}
use hawk_apiserver.Http.{Request, response_writer, http_error}
use hawk_apiserver.Marshal.{resources_json, constraints_json}
use hawk_apiserver.Auth.{check_hawk_auth_methods, last_cookie}
use hawk_apiserver.Auth.Laws.{HasSession, HasPassword, check_hawk_auth_methods_iff}
use hawk_apiserver.Api.Url.{url_list, no_route}
use hawk_apiserver.Api.Reply.{by_url, respond, as_json}
use hawk_apiserver.Api.Nodes.{handle_api_nodes}
use hawk_apiserver.Api.Nodes.Answer.{all_nodes, node_at, handle_api_nodes_lem}
use hawk_apiserver.Api.Resources.{handle_api_resources}
use hawk_apiserver.Api.Resources.Lookup.{chosen}
use hawk_apiserver.Api.Resources.Answer.{handle_api_resources_lem}
use hawk_apiserver.Api.Constraints.{handle_api_constraints}
use hawk_apiserver.Api.Constraints.Lookup
use hawk_apiserver.Api.Constraints.Answer.{handle_api_constraints_lem}
use hawk_apiserver.Api.Listing.{handle_api_nodes_default}
use hawk_apiserver.Tests.Samples.{
  get_at, fresh, sample_cib, sample_configuration, sample_nodes, sample_resources,
  sample_constraints, sample_unmarshal, sample_sessions, nobody,
}

abbrev cookie_request : Request
cookie_request = record (get_at (codes "/api/v1")) {
  cookies =
      (codes "hawk_remember_me_id", codes "bob") ∷ (codes "hawk_remember_me_key", codes "s1") ∷ [];
}

check_hawk_auth_methods_iff_example :
    (check_hawk_auth_methods sample_sessions nobody cookie_request ≡ true) ↔ (
      HasSession sample_sessions nobody
        (last_cookie (codes "hawk_remember_me_id") [] cookie_request.cookies)
        (last_cookie (codes "hawk_remember_me_key") [] cookie_request.cookies)
      ⊎ HasPassword sample_sessions nobody cookie_request.basic_auth)
check_hawk_auth_methods_iff_example =
    check_hawk_auth_methods_iff sample_sessions nobody cookie_request

abbrev node_request : Request
node_request = get_at (codes "/a/configuration/nodes/alice")

handle_api_nodes_lem_example :
    handle_api_nodes sample_unmarshal fresh node_request (codes "<cib/>") ≡ (
      by_url (all_nodes sample_nodes) (node_at sample_nodes) (url_list node_request.url.path)
      >>= respond node_request.url.path (as_json fresh))
handle_api_nodes_lem_example =
    handle_api_nodes_lem sample_unmarshal fresh node_request (codes "<cib/>") sample_cib
      sample_configuration sample_nodes refl refl refl

abbrev resource_request : Request
resource_request = get_at (codes "/a/configuration/resources/disk")

handle_api_resources_lem_example :
    handle_api_resources sample_unmarshal fresh resource_request (codes "<cib/>") ≡ (
      by_url
        (resources_json sample_resources)
        (λ key. chosen key sample_resources)
        (url_list resource_request.url.path)
      >>= respond resource_request.url.path (as_json fresh))
handle_api_resources_lem_example =
    handle_api_resources_lem sample_unmarshal fresh resource_request (codes "<cib/>") sample_cib
      sample_configuration sample_resources refl refl refl

abbrev constraint_request : Request
constraint_request = get_at (codes "/a/configuration/constraints")

handle_api_constraints_lem_example :
    handle_api_constraints sample_unmarshal fresh constraint_request (codes "<cib/>") ≡ (
      by_url
        (constraints_json sample_constraints)
        (λ key. Lookup.chosen key sample_constraints)
        (url_list constraint_request.url.path)
      >>= respond constraint_request.url.path (as_json fresh))
handle_api_constraints_lem_example =
    handle_api_constraints_lem sample_unmarshal fresh constraint_request (codes "<cib/>") sample_cib
      sample_configuration sample_constraints refl refl refl

abbrev below_nodes : Request
below_nodes = get_at (codes "/api/v1/configuration/nodes/alice")

handle_api_nodes_default_example :
    handle_api_nodes sample_unmarshal fresh below_nodes (codes "<cib/>")
    ≡ done (http_error (no_route below_nodes.url.path) 500 (as_json fresh), false)
handle_api_nodes_default_example =
    handle_api_nodes_default sample_unmarshal fresh below_nodes (codes "<cib/>") sample_cib
      sample_configuration (codes "/alice") refl refl (inr (codes "alice", refl)) sample_nodes refl
      refl ((ground arith, ground arith), tt)

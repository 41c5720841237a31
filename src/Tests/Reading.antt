-- ===== src/Tests/Reading.antt =====
-- What the API answers on a path that is too short, how an answer reads back, and entity tags.
use hawk_apiserver.Prelude.{◌≡◌, refl, ◌↔◌, ◌<◌, true, false, some, length}
use hawk_apiserver.Text.{codes}
use hawk_apiserver.Outcome.{done, panic}
use hawk_apiserver.Http.{Request, response_writer}
use hawk_apiserver.Marshal.{resources_json, constraints_json, crm_config_json}
use hawk_apiserver.Api.Url.{url_list}
use hawk_apiserver.Api.Reply.{by_url}
use hawk_apiserver.Json.{pointer}
use hawk_apiserver.Api.Cluster.{handle_api_cluster}
use hawk_apiserver.Api.Nodes.{handle_api_nodes}
use hawk_apiserver.Api.Nodes.Answer.{all_nodes, node_at}
use hawk_apiserver.Api.Resources.{handle_api_resources}
use hawk_apiserver.Api.Resources.Lookup as ResourceLookup
use hawk_apiserver.Api.Constraints.{handle_api_constraints}
use hawk_apiserver.Api.Constraints.Lookup as ConstraintLookup
use hawk_apiserver.Api.Panicking.{handle_api-eq-panic}
use hawk_apiserver.Api.Readable.{Tells, handle_api-read_value}
use hawk_apiserver.Server.Env.{FileInfo}
use hawk_apiserver.Server.Files.{etag}
use hawk_apiserver.Server.Files.Tags.{etag_Injective}
use hawk_apiserver.Tests.Samples.{
  get_at, fresh, sample_cib, sample_configuration, sample_nodes, sample_resources,
  sample_constraints, sample_unmarshal,
}

abbrev short_request : Request
short_request = get_at (codes "/configuration/nodes")

handle_api-eq-panic_example :
    ((handle_api_nodes sample_unmarshal fresh short_request (codes "<cib/>") ≡ panic)
      ↔ (length (url_list short_request.url.path) < 3))
    × ((handle_api_resources sample_unmarshal fresh short_request (codes "<cib/>") ≡ panic)
        ↔ (length (url_list short_request.url.path) < 3))
    × ((handle_api_constraints sample_unmarshal fresh short_request (codes "<cib/>") ≡ panic)
        ↔ (length (url_list short_request.url.path) < 3))
handle_api-eq-panic_example =
    handle_api-eq-panic sample_unmarshal fresh short_request (codes "<cib/>") sample_cib
      sample_configuration sample_nodes sample_resources sample_constraints refl refl refl refl refl

abbrev disk_request : Request
disk_request = get_at (codes "/a/configuration/resources/disk")

handle_api-read_value_example :
    Tells
      (by_url (all_nodes sample_nodes) (node_at sample_nodes) (url_list disk_request.url.path))
      (handle_api_nodes sample_unmarshal fresh disk_request (codes "<cib/>"))
    × Tells
        (by_url
          (resources_json sample_resources)
          (λ key. ResourceLookup.chosen key sample_resources)
          (url_list disk_request.url.path))
        (handle_api_resources sample_unmarshal fresh disk_request (codes "<cib/>"))
    × Tells
        (by_url
          (constraints_json sample_constraints)
          (λ key. ConstraintLookup.chosen key sample_constraints)
          (url_list disk_request.url.path))
        (handle_api_constraints sample_unmarshal fresh disk_request (codes "<cib/>"))
    × Tells
        (done (some (pointer crm_config_json sample_configuration.crm_config)))
        (handle_api_cluster sample_unmarshal fresh disk_request (codes "<cib/>"))
handle_api-read_value_example =
    handle_api-read_value sample_unmarshal fresh disk_request (codes "<cib/>") sample_cib
      sample_configuration sample_nodes sample_resources sample_constraints refl refl refl refl refl
      refl refl refl

abbrev index_html : FileInfo
index_html = record { is_dir = false; mod_time = 1500000000; size = 1024 }

-- A directory with the same numbers.
abbrev html : FileInfo
html = record index_html { is_dir = true }

etag_Injective_example : (index_html.mod_time ≡ html.mod_time) × (index_html.size ≡ html.size)
unfolding etag
etag_Injective_example = etag_Injective index_html html refl

-- ===== src/Api/Resources.antt =====
-- api_resources.go. `unmarshal` is encoding/xml's reading of a document into the structs; `none` is
-- an error.
pub mod Lookup
pub mod Answer
use hawk_apiserver.Prelude.{
  Bool, true, false, List, [], Option, none, some, ◌==◌, nat_eq, if◌then◌else◌, length,
}
use hawk_apiserver.Text.{Text, codes}
use hawk_apiserver.Map.{lookup}
use hawk_apiserver.Outcome.{Outcome, done, panic, ◌>>=◌, deref, index}
use hawk_apiserver.Cib.{Cib, Configuration, Resources, Primitive, Group, Clone, Master, TypeIndex}
use hawk_apiserver.Http.{ResponseWriter, Request, set_header, http_error}
use hawk_apiserver.Api.Marshal.{write_cib}
use hawk_apiserver.Api.Url.{url_list, no_route, index_items}

-- mapIdType, filled by the four loops
unfoldable pub resource_index : Resources → List (Text × TypeIndex)
unfolding index_items
resource_index r = index_items (codes "master") Master.id 0 r.master (
    index_items (codes "clone") Clone.id 0 r.clone (
      index_items (codes "group") Group.id 0 r.group
        (index_items (codes "primitive") Primitive.id 0 r.primitive [])))

module _ {W : Type 0} ⦃i : ResponseWriter W⦄ where
  unfoldable pub write_resources : Cib → Configuration → W → Resources → Outcome (W × Bool)
  write_resources cib conf w s =
      write_cib (record cib { configuration = some (record conf { resources = some s }) }) w

  -- `val, ok := mapIdType[id]` and its two branches
  unfoldable pub write_indexed :
      Text → Cib → Configuration → Resources → W → Option TypeIndex → Outcome (W × Bool)
  unfolding no_route write_resources
  write_indexed path cib conf s w none = done (http_error (no_route path) 500 w, false)
  write_indexed path cib conf s w (some val) =
      write_resources cib conf w (record s { url_type = val.type; url_index = val.index })

  unfoldable pub select_resource :
      Text → Cib → Configuration → Resources → List Text → W → Outcome (W × Bool)
  unfolding resource_index write_indexed write_resources
  select_resource path cib conf s urllist w =
      if length urllist == 3
      then write_resources cib conf w (record s { url_type = codes "all" })
      else (do
        key ← index urllist 3
        write_indexed path cib conf s w (lookup (resource_index s) key))

  unfoldable pub handle_api_resources :
      (Text → Option Cib) → W → Request → Text → Outcome (W × Bool)
  unfolding url_list select_resource
  handle_api_resources unmarshal w r cib_data = elim (unmarshal cib_data) [
    | none ↦ done (w, false)
    | some cib ↦ do
      conf ← deref cib.configuration
      resources ← deref conf.resources
      select_resource r.url.path cib (record conf { url_type = codes "resources" }) resources
          (url_list r.url.path) (set_header (codes "Content-Type") (codes "application/json") w)
  ]

-- ===== src/Api/Marshal.antt =====
-- api_common.go: Cib.MarshalJSON, which picks the part of the document that the URL asked for, and
-- the tail that the four handlers share.
use hawk_apiserver.Prelude.{ℕ, Bool, true, List, ◌++◌, ◌==◌, text_eq, if◌then◌else◌}
use hawk_apiserver.Text.{codes}
use hawk_apiserver.Outcome.{Outcome, done, ◌>>=◌, deref, index}
use hawk_apiserver.Cib.{Cib, Configuration, Nodes, Resources, Constraints}
use hawk_apiserver.Json.{Json, null, slice, map_items, pointer, encode}
use hawk_apiserver.Marshal.{
  node_json, crm_config_json, resources_json, primitive_json, group_json, clone_json, master_json,
  constraints_json, rsc_location_json, rsc_colocation_json, rsc_order_json,
}
use hawk_apiserver.Http.{ResponseWriter, write_string}

-- `xs[i]`, marshalled
abbrev item : {A : Type 0} → (A → Json) → List A → ℕ → Outcome Json
item f xs i = do x ← index xs i; done (f x)

unfoldable pub marshal_nodes : Nodes → Outcome Json
marshal_nodes n =
    if n.url_type == codes "all"
    then done (slice (map_items node_json n.node))
    else if n.url_type == codes "node"
    then item node_json n.node n.url_index
    else done null

unfoldable pub marshal_resources : Resources → Outcome Json
marshal_resources r =
    if r.url_type == codes "all"
    then done (resources_json r)
    else if r.url_type == codes "primitive"
    then item primitive_json r.primitive r.url_index
    else if r.url_type == codes "group"
    then item group_json r.group r.url_index
    else if r.url_type == codes "clone"
    then item clone_json r.clone r.url_index
    else if r.url_type == codes "master"
    then item master_json r.master r.url_index
    else done null

unfoldable pub marshal_constraints : Constraints → Outcome Json
marshal_constraints c =
    if c.url_type == codes "all"
    then done (constraints_json c)
    else if c.url_type == codes "location"
    then item rsc_location_json c.rsc_location c.url_index
    else if c.url_type == codes "colocation"
    then item rsc_colocation_json c.rsc_colocation c.url_index
    else if c.url_type == codes "order"
    then item rsc_order_json c.rsc_order c.url_index
    else done null

unfoldable pub marshal_configuration : Configuration → Outcome Json
marshal_configuration c =
    if c.url_type == codes "nodes"
    then (do n ← deref c.nodes; marshal_nodes n)
    else if c.url_type == codes "cluster"
    then done (pointer crm_config_json c.crm_config)
    else if c.url_type == codes "resources"
    then (do r ← deref c.resources; marshal_resources r)
    else if c.url_type == codes "constraints"
    then (do k ← deref c.constraints; marshal_constraints k)
    else done null

-- Cib.MarshalJSON
unfoldable pub marshal_json : Cib → Outcome Json
unfolding marshal_configuration
marshal_json cib = do c ← deref cib.configuration; marshal_configuration c

module _ {W : Type 0} ⦃i : ResponseWriter W⦄ where
  -- `json.Marshal(&cib)`, which does not fail on these types, and `io.WriteString`
  unfoldable pub write_cib : Cib → W → Outcome (W × Bool)
  write_cib cib w = do
    json ← marshal_json cib
    done (write_string (encode json ++ codes "\n") w, true)

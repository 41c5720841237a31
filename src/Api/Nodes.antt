-- ===== src/Api/Nodes.antt =====
-- api_nodes.go. `unmarshal` is encoding/xml's reading of a document into the structs; `none` is an
-- error.
pub mod Lookup
pub mod Answer
use hawk_apiserver.Prelude.{
  ℕ, Bool, true, false, ◌||◌, List, ◌∷◌, [], ◌++◌, Option, none, some, ◌==◌, nat_eq, text_eq,
  if◌then◌else◌, length,
}
use hawk_apiserver.Text.{Text, codes, shift}
use hawk_apiserver.Outcome.{Outcome, done, panic, ◌>>=◌, deref, index}
use hawk_apiserver.Cib.{Cib, Configuration, Nodes, Node}
use hawk_apiserver.Http.{ResponseWriter, Request, set_header, http_error}
use hawk_apiserver.Api.Marshal.{write_cib}
use hawk_apiserver.Api.Url.{url_list, no_route}

-- The loop over the nodes: the first index whose node has that name or id.
unfoldable pub node_index : Text → List Node → Option ℕ
node_index key [] = none
node_index key (n ∷ ns) =
    if key == n.uname || key == n.id then some 0 else shift (node_index key ns)

module _ {W : Type 0} ⦃i : ResponseWriter W⦄ where
  unfoldable pub write_nodes : Cib → Configuration → W → Nodes → Outcome (W × Bool)
  write_nodes cib conf w s =
      write_cib (record cib { configuration = some (record conf { nodes = some s }) }) w

  -- What follows the loop: no index, or the node at the index.
  unfoldable pub write_indexed :
      Text → Cib → Configuration → Nodes → W → Option ℕ → Outcome (W × Bool)
  unfolding no_route write_nodes
  write_indexed path cib conf s w none = done (http_error (no_route path) 500 w, false)
  write_indexed path cib conf s w (some at) =
      write_nodes cib conf w (record s { url_type = codes "node"; url_index = at })

  unfoldable pub select_node :
      Text → Cib → Configuration → Nodes → List Text → W → Outcome (W × Bool)
  unfolding node_index write_indexed write_nodes
  select_node path cib conf s urllist w =
      if length urllist == 3
      then write_nodes cib conf w (record s { url_type = codes "all" })
      else (do key ← index urllist 3; write_indexed path cib conf s w (node_index key s.node))

  unfoldable pub handle_api_nodes : (Text → Option Cib) → W → Request → Text → Outcome (W × Bool)
  unfolding url_list select_node
  handle_api_nodes unmarshal w r cib_data = elim (unmarshal cib_data) [
    | none ↦ done (w, false)
    | some cib ↦ do
      conf ← deref cib.configuration
      nodes ← deref conf.nodes
      select_node r.url.path cib (record conf { url_type = codes "nodes" }) nodes
          (url_list r.url.path) (set_header (codes "Content-Type") (codes "application/json") w)
  ]

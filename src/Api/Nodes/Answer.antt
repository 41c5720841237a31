-- ===== src/Api/Nodes/Answer.antt =====
-- handle_api_nodes answers what the URL stands for, on every path.
use mathlib.Core.Option
use hawk_apiserver.Prelude.{◌≡◌, refl, inl, inr, List, ◌∷◌, [], Option, some, text_beq}
use hawk_apiserver.Text.{Text, codes}
use hawk_apiserver.Outcome.{done, ◌>>=◌}
use hawk_apiserver.Cib.{Cib, Configuration, Nodes}
use hawk_apiserver.Json.{Json, slice, map_items}
use hawk_apiserver.Marshal.{node_json}
use hawk_apiserver.Http.{ResponseWriter, Request}
use hawk_apiserver.Api.Marshal.{marshal_json, marshal_nodes, write_cib}
use hawk_apiserver.Api.Url.{url_list}
use hawk_apiserver.Api.Reply.{by_url, respond, as_json, not-three}
use hawk_apiserver.Api.Nodes.{select_node, handle_api_nodes}
use hawk_apiserver.Api.Nodes.Lookup.{find_node, node_index-find_node, marshal_nodes_at}

-- The whole section, and the node that a key stands for.
abbrev pub all_nodes : Nodes → Json
all_nodes s = slice (map_items node_json s.node)

abbrev pub node_at : Nodes → Text → Option Json
node_at s key = Option.map node_json (find_node key s.node)

marshal_json-nodes :
    (cib : Cib) (conf : Configuration) (s : Nodes)
    → conf.url_type ≡ codes "nodes"
    → marshal_json (record cib { configuration = some (record conf { nodes = some s }) })
      ≡ marshal_nodes s
unfolding marshal_json text_beq
marshal_json-nodes cib conf s e = rw e

marshal_nodes_all :
    (s : Nodes) → marshal_nodes (record s { url_type = codes "all" }) ≡ done (all_nodes s)
unfolding marshal_nodes text_beq
marshal_nodes_all s = refl

module _ {W : Type 0} ⦃i : ResponseWriter W⦄ where
  select_node_lem :
      (path : Text) (cib : Cib) (conf : Configuration) (s : Nodes) (urllist : List Text) (w : W)
      → conf.url_type ≡ codes "nodes"
      → select_node path cib conf s urllist w
        ≡ (by_url (all_nodes s) (node_at s) urllist >>= respond path w)
  unfolding select_node write_cib
  select_node_lem path cib conf s [] w e = refl
  select_node_lem path cib conf s (_ ∷ []) w e = refl
  select_node_lem path cib conf s (_ ∷ _ ∷ []) w e = refl
  select_node_lem path cib conf s (_ ∷ _ ∷ _ ∷ []) w e =
      rw (write_cib, marshal_json-nodes cib conf _ e, marshal_nodes_all s)
  select_node_lem path cib conf s (_ ∷ _ ∷ _ ∷ key ∷ more) w e =
      elim (node_index-find_node key s.node) [
        | inl (p, q) ↦ rw (not-three more, p, q)
        | inr (at, n, p, q, g) ↦ rw (
          not-three more,
          p,
          q,
          write_cib,
          marshal_json-nodes cib conf _ e,
          marshal_nodes_at s at n g,
        )
      ]

  -- For a document with a nodes section the answer is all nodes, the first node whose name or
  -- identifier is in the URL, an error, or a panic, by the URL alone.
  pub handle_api_nodes_lem :
      (unmarshal : Text → Option Cib) (w : W) (r : Request) (cib_data : Text) (cib : Cib)
      (conf : Configuration) (s : Nodes)
      → unmarshal cib_data ≡ some cib
      → cib.configuration ≡ some conf
      → conf.nodes ≡ some s
      → handle_api_nodes unmarshal w r cib_data ≡ (
          by_url (all_nodes s) (node_at s) (url_list r.url.path) >>= respond r.url.path (as_json w))
  unfolding handle_api_nodes
  handle_api_nodes_lem unmarshal w r cib_data cib conf s p q t =
      rw (p, handle_api_nodes, q, t)
        (select_node_lem r.url.path cib (record conf { url_type = codes "nodes" }) s
          (url_list r.url.path) (as_json w) refl)

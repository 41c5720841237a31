-- ===== src/Api/Nodes/Lookup.antt =====
-- What /configuration/nodes/{id} answers: the first node with that name or identifier.
use hawk_apiserver.Prelude.{
  ℕ, suc, ◌≡◌, refl, ◌≢◌, ◌⊎◌, inl, inr, ◌||◌, List, ◌∷◌, [], Option, none, some, ◌==◌, text_eq,
  text_beq, text_beq_iff, if◌then◌else◌, get_elem?, All, arith, Bool-cases,
}
use hawk_apiserver.Text.{Text, codes}
use hawk_apiserver.Outcome.{done}
use hawk_apiserver.Cib.{Nodes, Node}
use hawk_apiserver.Marshal.{node_json}
use hawk_apiserver.Api.Marshal.{marshal_nodes}
use hawk_apiserver.Api.Nodes.{node_index}

unfoldable pub find_node : Text → List Node → Option Node
find_node key [] = none
find_node key (n ∷ ns) = if key == n.uname || key == n.id then some n else find_node key ns

-- The loop's index points at the node.
pub node_index-find_node :
    (key : Text) (ns : List Node)
    → ((node_index key ns ≡ none) × (find_node key ns ≡ none))
      ⊎ ((i : ℕ) × (n : Node) × (node_index key ns ≡ some i)
          × (find_node key ns ≡ some n)
          × (get_elem? ns i ≡ some n))
unfolding node_index find_node
node_index-find_node key [] = inl (refl, refl)
node_index-find_node key (n ∷ ns) = elim (Bool-cases (key == n.uname || key == n.id)) [
  | inl here ↦ inr (0, n, rw here, rw here, refl)
  | inr later ↦ elim (node_index-find_node key ns) [
    | inl (p, q) ↦ inl (rw (later, p), rw (later, q))
    | inr (i, m, p, q, g) ↦ inr (suc i, m, rw (later, p), rw (later, q), g)
  ]
]

-- MarshalJSON at the index gives the node.
pub marshal_nodes_at :
    (s : Nodes) (i : ℕ) (n : Node)
    → get_elem? s.node i ≡ some n
    → marshal_nodes (record s { url_type = codes "node"; url_index = i }) ≡ done (node_json n)
unfolding marshal_nodes text_beq
marshal_nodes_at s i n e = rw e

-- No node is found exactly when none has the key for its name or identifier.
pub find_node-eq-none :
    (key : Text) (ns : List Node)
    → All (λ n. (n.uname ≢ key) × (n.id ≢ key)) ns
    → find_node key ns ≡ none
unfolding find_node
find_node-eq-none key [] _ = refl
find_node-eq-none key (n ∷ ns) (h, hs) =
    ground (arith, text_beq_iff key n.uname, text_beq_iff key n.id, find_node-eq-none key ns hs)

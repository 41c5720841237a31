-- ===== src/Cib/NodeSets.antt =====
-- api_structs.go: the cluster's nodes.
use hawk_apiserver.Prelude.{ℕ, List}
use hawk_apiserver.Text.{Text}
use hawk_apiserver.Cib.AttributeSets.{InstanceAttributes, Utilization}

pub record Node : Type 0 where
  pub id : Text
  pub uname : Text
  pub type : Text
  pub description : Text
  pub score : Text
  pub instance_attributes : List InstanceAttributes
  pub utilization : List Utilization

pub record Nodes : Type 0 where
  pub node : List Node
  pub url_type : Text
  pub url_index : ℕ

-- ===== src/Cib/Alerting.antt =====
-- api_structs.go: alerts.
use hawk_apiserver.Prelude.{List, Option}
use hawk_apiserver.Text.{Text}
use hawk_apiserver.Cib.AttributeSets.{InstanceAttributes, MetaAttributes}

pub record Attribute : Type 0 where
  pub id : Text
  pub name : Text

pub record SelectAttributes : Type 0 where
  pub attribute : List Attribute

pub data SelectFencing : Type 0 where
  select_fencing : SelectFencing

pub data SelectNodes : Type 0 where
  select_nodes : SelectNodes

pub data SelectResources : Type 0 where
  select_resources : SelectResources

pub record Select : Type 0 where
  pub select_attributes : Option SelectAttributes
  pub select_fencing : Option SelectFencing
  pub select_nodes : Option SelectNodes
  pub select_resources : Option SelectResources

pub record Recipient : Type 0 where
  pub id : Text
  pub description : Text
  pub value : Text
  pub meta_attributes : List MetaAttributes
  pub instance_attributes : List InstanceAttributes

pub record Alert : Type 0 where
  pub id : Text
  pub description : Text
  pub path : Text
  pub meta_attributes : List MetaAttributes
  pub instance_attributes : List InstanceAttributes
  pub select : Option Select
  pub recipient : List Recipient

pub record Alerts : Type 0 where
  pub alert : List Alert

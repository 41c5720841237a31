-- ===== src/Cib/AttributeSets.antt =====
-- api_structs.go: sets of name-value pairs.
use hawk_apiserver.Prelude.{List, Option}
use hawk_apiserver.Text.{Text}
use hawk_apiserver.Cib.Conditions.{Rule}

pub record Nvpair : Type 0 where
  pub id_ref : Text
  pub name : Text
  pub id : Text
  pub value : Text

pub record ClusterPropertySet : Type 0 where
  pub id_ref : Text
  pub id : Text
  pub rule : Option Rule
  pub nvpair : List Nvpair
  pub score : Text

pub record CrmConfig : Type 0 where
  pub cluster_property_set : List ClusterPropertySet

pub record MetaAttributes : Type 0 where
  pub id_ref : Text
  pub id : Text
  pub rule : Option Rule
  pub nvpair : List Nvpair
  pub score : Text

pub record InstanceAttributes : Type 0 where
  pub id_ref : Text
  pub id : Text
  pub rule : Option Rule
  pub nvpair : List Nvpair
  pub score : Text

pub record Utilization : Type 0 where
  pub id_ref : Text
  pub id : Text
  pub rule : Option Rule
  pub nvpair : List Nvpair
  pub score : Text

pub record RscDefaults : Type 0 where
  pub meta_attributes : List MetaAttributes

pub record OpDefaults : Type 0 where
  pub meta_attributes : List MetaAttributes

-- ===== src/Cib/Primitives.antt =====
-- api_structs.go: resources and their groupings.
use hawk_apiserver.Prelude.{List, Option}
use hawk_apiserver.Text.{Text}
use hawk_apiserver.Cib.AttributeSets.{InstanceAttributes, MetaAttributes, Utilization}

pub record Op : Type 0 where
  pub id : Text
  pub name : Text
  pub interval : Text
  pub description : Text
  pub start_delay : Text
  pub interval_origin : Text
  pub timeout : Text
  pub enabled : Text
  pub record_pending : Text
  pub role : Text
  pub on_fail : Text
  pub meta_attributes : List MetaAttributes
  pub instance_attributes : List InstanceAttributes

pub record Operations : Type 0 where
  pub id : Text
  pub id_ref : Text
  pub op : List Op

pub record Primitive : Type 0 where
  pub id : Text
  pub class : Text
  pub provider : Text
  pub type : Text
  pub template : Text
  pub description : Text
  pub meta_attributes : List MetaAttributes
  pub instance_attributes : List InstanceAttributes
  pub operations : Option Operations
  pub utilization : List Utilization

pub record Template : Type 0 where
  pub id : Text
  pub class : Text
  pub provider : Text
  pub type : Text
  pub description : Text
  pub meta_attributes : List MetaAttributes
  pub instance_attributes : List InstanceAttributes
  pub operations : Option Operations
  pub utilization : List Utilization

pub record Group : Type 0 where
  pub id : Text
  pub description : Text
  pub meta_attributes : List MetaAttributes
  pub instance_attributes : List InstanceAttributes
  pub primitive : List Primitive

pub record Clone : Type 0 where
  pub id : Text
  pub description : Text
  pub meta_attributes : List MetaAttributes
  pub instance_attributes : List InstanceAttributes
  pub primitive : Option Primitive
  pub group : Option Group

pub record Master : Type 0 where
  pub id : Text
  pub description : Text
  pub meta_attributes : List MetaAttributes
  pub instance_attributes : List InstanceAttributes
  pub primitive : Option Primitive
  pub group : Option Group

-- ===== src/Cib/Bundling.antt =====
-- api_structs.go: bundles, and the section of all resources.
use hawk_apiserver.Prelude.{ℕ, List, Option}
use hawk_apiserver.Text.{Text}
use hawk_apiserver.Cib.AttributeSets.{InstanceAttributes, MetaAttributes}
use hawk_apiserver.Cib.Primitives.{Clone, Group, Master, Primitive, Template}

pub record Docker : Type 0 where
  pub image : Text
  pub replicas : Text
  pub replicas_per_host : Text
  pub masters : Text
  pub promoted_max : Text
  pub run_command : Text
  pub network : Text
  pub options : Text

pub record Rkt : Type 0 where
  pub image : Text
  pub replicas : Text
  pub replicas_per_host : Text
  pub masters : Text
  pub promoted_max : Text
  pub run_command : Text
  pub network : Text
  pub options : Text

pub record PortMapping : Type 0 where
  pub id : Text
  pub port : Text
  pub internal_port : Text
  pub range : Text

pub record Network : Type 0 where
  pub ip_range_start : Text
  pub control_port : Text
  pub host_interface : Text
  pub host_netmask : Text
  pub add_host : Text
  pub port_mapping : List PortMapping

pub record StorageMapping : Type 0 where
  pub id : Text
  pub source_dir : Text
  pub source_dir_root : Text
  pub target_dir : Text
  pub options : Text

pub record Storage : Type 0 where
  pub storage_mapping : List StorageMapping

pub record Bundle : Type 0 where
  pub id : Text
  pub description : Text
  pub meta_attributes : List MetaAttributes
  pub instance_attributes : List InstanceAttributes
  pub docker : Option Docker
  pub rkt : Option Rkt
  pub network : Option Network
  pub storage : Option Storage
  pub primitive : Option Primitive

pub record Resources : Type 0 where
  pub primitive : List Primitive
  pub template : List Template
  pub group : List Group
  pub clone : List Clone
  pub master : List Master
  pub bundle : List Bundle
  pub url_type : Text
  pub url_index : ℕ

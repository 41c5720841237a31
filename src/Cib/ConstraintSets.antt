-- ===== src/Cib/ConstraintSets.antt =====
-- api_structs.go: constraints between resources.
use hawk_apiserver.Prelude.{ℕ, List, Option}
use hawk_apiserver.Text.{Text}
use hawk_apiserver.Cib.Conditions.{Lifetime, Rules}

pub record ResourceRef : Type 0 where
  pub id : Text

pub record ResourceSet : Type 0 where
  pub id_ref : Text
  pub id : Text
  pub sequential : Text
  pub require_all : Text
  pub ordering : Text
  pub action : Text
  pub role : Text
  pub score : Text
  pub kind : Text
  pub resource_ref : List ResourceRef

pub record RscLocation : Type 0 where
  pub id : Text
  pub rsc : Text
  pub rsc_pattern : Text
  pub role : Text
  pub resource_set : List ResourceSet
  pub score : Text
  pub node : Text
  pub rule : Rules
  pub lifetime : Option Lifetime
  pub resource_discovery : Text

pub record RscColocation : Type 0 where
  pub id : Text
  pub score : Text
  pub lifetime : Option Lifetime
  pub resource_set : List ResourceSet
  pub rsc : Text
  pub with_rsc : Text
  pub node_attribute : Text
  pub rsc_role : Text
  pub with_rsc_role : Text

pub record RscOrder : Type 0 where
  pub id : Text
  pub lifetime : Option Lifetime
  pub symmetrical : Text
  pub require_all : Text
  pub score : Text
  pub kind : Text
  pub resource_set : List ResourceSet
  pub first : Text
  pub then' : Text
  pub first_action : Text
  pub then_action : Text

pub record RscTicket : Type 0 where
  pub id : Text
  pub resource_set : List ResourceSet
  pub rsc : Text
  pub rsc_role : Text
  pub ticket : Text
  pub loss_policy : Text

pub record Constraints : Type 0 where
  pub rsc_location : List RscLocation
  pub rsc_colocation : List RscColocation
  pub rsc_order : List RscOrder
  pub rsc_ticket : List RscTicket
  pub url_type : Text
  pub url_index : ℕ

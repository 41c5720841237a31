-- ===== src/Cib.antt =====
-- api_structs.go: the cluster information base, one record for each struct, a pointer as an Option
-- and a slice of pointers as a list. The fields XMLNAME, which no code reads, are left out.
mod Conditions
mod AttributeSets
mod NodeSets
mod Primitives
mod Bundling
mod ConstraintSets
mod Access
mod Alerting
unfoldable pub use Conditions.*
unfoldable pub use AttributeSets.*
unfoldable pub use NodeSets.*
unfoldable pub use Primitives.*
unfoldable pub use Bundling.*
unfoldable pub use ConstraintSets.*
unfoldable pub use Access.*
unfoldable pub use Alerting.*
use hawk_apiserver.Prelude.{ℕ, Option}
use hawk_apiserver.Text.{Text}

pub data Status : Type 0 where
  status : Status

pub record Configuration : Type 0 where
  pub crm_config : Option CrmConfig
  pub rsc_defaults : Option RscDefaults
  pub op_defaults : Option OpDefaults
  pub nodes : Option Nodes
  pub resources : Option Resources
  pub constraints : Option Constraints
  pub fencing_topology : Option FencingTopology
  pub acls : Option Acls
  pub tags : Option Tags
  pub alerts : Option Alerts
  pub url_type : Text

pub record Cib : Type 0 where
  pub validate_with : Text
  pub admin_epoch : Text
  pub epoch : Text
  pub num_updates : Text
  pub crm_feature_set : Text
  pub remote_tls_port : Text
  pub remote_clear_port : Text
  pub have_quorum : Text
  pub dc_uuid : Text
  pub cib_last_written : Text
  pub no_quorum_panic : Text
  pub update_origin : Text
  pub update_client : Text
  pub update_user : Text
  pub execution_date : Text
  pub configuration : Option Configuration
  pub status : Option Status

pub record TypeIndex : Type 0 where
  pub type : Text
  pub index : ℕ

-- ===== src/Cib/Access.antt =====
-- api_structs.go: fencing, access control and tags.
use hawk_apiserver.Prelude.{List}
use hawk_apiserver.Text.{Text}

pub record FencingLevel : Type 0 where
  pub id : Text
  pub target : Text
  pub target_pattern : Text
  pub target_attribute : Text
  pub target_value : Text
  pub index : Text
  pub devices : Text

pub record FencingTopology : Type 0 where
  pub fencing_level : List FencingLevel

pub record Role : Type 0 where
  pub id : Text

pub record AclTarget : Type 0 where
  pub id : Text
  pub role : List Role

pub record AclGroup : Type 0 where
  pub id : Text
  pub role : List Role

pub record AclPermission : Type 0 where
  pub id : Text
  pub kind : Text
  pub xpath : Text
  pub reference : Text
  pub object_type : Text
  pub attribute : Text
  pub description : Text

pub record AclRole : Type 0 where
  pub id : Text
  pub description : Text
  pub acl_permission : List AclPermission

pub record Acls : Type 0 where
  pub acl_target : List AclTarget
  pub acl_group : List AclGroup
  pub acl_role : List AclRole

pub record ObjRef : Type 0 where
  pub id : Text

pub record Tag : Type 0 where
  pub id : Text
  pub obj_ref : List ObjRef

pub record Tags : Type 0 where
  pub tag : List Tag

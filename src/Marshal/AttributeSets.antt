-- ===== src/Marshal/AttributeSets.antt =====
-- api_structs.go: the json tags of sets of name-value pairs.
use hawk_apiserver.Prelude.{◌++◌}
use hawk_apiserver.Text.{codes}
use hawk_apiserver.Json.{Json, object, text_omitempty, list_omitempty, pointer_omitempty}
use hawk_apiserver.Cib.{
  Nvpair, ClusterPropertySet, CrmConfig, MetaAttributes, InstanceAttributes, Utilization,
}
use hawk_apiserver.Marshal.Conditions.{rule_json}

unfoldable pub nvpair_json : Nvpair → Json
nvpair_json r = object (
    text_omitempty (codes "id-ref") r.id_ref
    ++ text_omitempty (codes "name") r.name
    ++ text_omitempty (codes "id") r.id
    ++ text_omitempty (codes "value") r.value)

unfoldable pub cluster_property_set_json : ClusterPropertySet → Json
cluster_property_set_json r = object (
    text_omitempty (codes "id-ref") r.id_ref
    ++ text_omitempty (codes "id") r.id
    ++ pointer_omitempty (codes "rule") rule_json r.rule
    ++ list_omitempty (codes "nvpair") nvpair_json r.nvpair
    ++ text_omitempty (codes "score") r.score)

unfoldable pub crm_config_json : CrmConfig → Json
crm_config_json r =
    object (
      list_omitempty (codes "cluster_property_set") cluster_property_set_json
        r.cluster_property_set)

unfoldable pub meta_attributes_json : MetaAttributes → Json
meta_attributes_json r = object (
    text_omitempty (codes "id-ref") r.id_ref
    ++ text_omitempty (codes "id") r.id
    ++ pointer_omitempty (codes "rule") rule_json r.rule
    ++ list_omitempty (codes "nvpair") nvpair_json r.nvpair
    ++ text_omitempty (codes "score") r.score)

unfoldable pub instance_attributes_json : InstanceAttributes → Json
instance_attributes_json r = object (
    text_omitempty (codes "id-ref") r.id_ref
    ++ text_omitempty (codes "id") r.id
    ++ pointer_omitempty (codes "rule") rule_json r.rule
    ++ list_omitempty (codes "nvpair") nvpair_json r.nvpair
    ++ text_omitempty (codes "score") r.score)

unfoldable pub utilization_json : Utilization → Json
utilization_json r = object (
    text_omitempty (codes "id-ref") r.id_ref
    ++ text_omitempty (codes "id") r.id
    ++ pointer_omitempty (codes "rule") rule_json r.rule
    ++ list_omitempty (codes "nvpair") nvpair_json r.nvpair
    ++ text_omitempty (codes "score") r.score)

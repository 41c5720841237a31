-- ===== src/Marshal/NodeSets.antt =====
-- api_structs.go: the json tags of the cluster's nodes.
use hawk_apiserver.Prelude.{◌++◌}
use hawk_apiserver.Text.{codes}
use hawk_apiserver.Json.{Json, object, text, text_omitempty, list_omitempty}
use hawk_apiserver.Cib.{Node}
use hawk_apiserver.Marshal.AttributeSets.{instance_attributes_json, utilization_json}

unfoldable pub node_json : Node → Json
node_json r = object (
    text (codes "id") r.id
    ++ text (codes "uname") r.uname
    ++ text_omitempty (codes "type") r.type
    ++ text_omitempty (codes "description") r.description
    ++ text_omitempty (codes "score") r.score
    ++ list_omitempty (codes "instance_attributes") instance_attributes_json r.instance_attributes
    ++ list_omitempty (codes "utilization") utilization_json r.utilization)

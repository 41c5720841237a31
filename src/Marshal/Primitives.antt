-- ===== src/Marshal/Primitives.antt =====
-- api_structs.go: the json tags of resources and their groupings.
use hawk_apiserver.Prelude.{◌++◌}
use hawk_apiserver.Text.{codes}
use hawk_apiserver.Json.{
  Json, object, text, text_omitempty, list, list_omitempty, pointer_omitempty,
}
use hawk_apiserver.Cib.{Op, Operations, Primitive, Template, Group, Clone, Master}
use hawk_apiserver.Marshal.AttributeSets.{
  instance_attributes_json, meta_attributes_json, utilization_json,
}

unfoldable pub op_json : Op → Json
op_json r = object (
    text (codes "id") r.id
    ++ text (codes "name") r.name
    ++ text (codes "interval") r.interval
    ++ text_omitempty (codes "description") r.description
    ++ text_omitempty (codes "start-delay") r.start_delay
    ++ text_omitempty (codes "interval-origin") r.interval_origin
    ++ text_omitempty (codes "timeout") r.timeout
    ++ text_omitempty (codes "enabled") r.enabled
    ++ text_omitempty (codes "record-pending") r.record_pending
    ++ text_omitempty (codes "role") r.role
    ++ text_omitempty (codes "on-fail") r.on_fail
    ++ list_omitempty (codes "meta_attributes") meta_attributes_json r.meta_attributes
    ++ list_omitempty (codes "instance_attributes") instance_attributes_json r.instance_attributes)

unfoldable pub operations_json : Operations → Json
operations_json r = object (
    text_omitempty (codes "id") r.id
    ++ text_omitempty (codes "id-ref") r.id_ref
    ++ list_omitempty (codes "op") op_json r.op)

unfoldable pub primitive_json : Primitive → Json
primitive_json r = object (
    text (codes "id") r.id
    ++ text_omitempty (codes "class") r.class
    ++ text_omitempty (codes "provider") r.provider
    ++ text_omitempty (codes "type") r.type
    ++ text_omitempty (codes "template") r.template
    ++ text_omitempty (codes "description") r.description
    ++ list_omitempty (codes "meta_attributes") meta_attributes_json r.meta_attributes
    ++ list_omitempty (codes "instance_attributes") instance_attributes_json r.instance_attributes
    ++ pointer_omitempty (codes "operations") operations_json r.operations
    ++ list_omitempty (codes "utilization") utilization_json r.utilization)

unfoldable pub template_json : Template → Json
template_json r = object (
    text (codes "id") r.id
    ++ text_omitempty (codes "class") r.class
    ++ text_omitempty (codes "provider") r.provider
    ++ text (codes "type") r.type
    ++ text_omitempty (codes "description") r.description
    ++ list_omitempty (codes "meta_attributes") meta_attributes_json r.meta_attributes
    ++ list_omitempty (codes "instance_attributes") instance_attributes_json r.instance_attributes
    ++ pointer_omitempty (codes "operations") operations_json r.operations
    ++ list_omitempty (codes "utilization") utilization_json r.utilization)

unfoldable pub group_json : Group → Json
group_json r = object (
    text (codes "id") r.id
    ++ text_omitempty (codes "description") r.description
    ++ list_omitempty (codes "meta_attributes") meta_attributes_json r.meta_attributes
    ++ list_omitempty (codes "instance_attributes") instance_attributes_json r.instance_attributes
    ++ list (codes "primitive") primitive_json r.primitive)

unfoldable pub clone_json : Clone → Json
clone_json r = object (
    text (codes "id") r.id
    ++ text_omitempty (codes "description") r.description
    ++ list_omitempty (codes "meta_attributes") meta_attributes_json r.meta_attributes
    ++ list_omitempty (codes "instance_attributes") instance_attributes_json r.instance_attributes
    ++ pointer_omitempty (codes "primitive") primitive_json r.primitive
    ++ pointer_omitempty (codes "group") group_json r.group)

unfoldable pub master_json : Master → Json
master_json r = object (
    text (codes "id") r.id
    ++ text_omitempty (codes "description") r.description
    ++ list_omitempty (codes "meta_attributes") meta_attributes_json r.meta_attributes
    ++ list_omitempty (codes "instance_attributes") instance_attributes_json r.instance_attributes
    ++ pointer_omitempty (codes "primitive") primitive_json r.primitive
    ++ pointer_omitempty (codes "group") group_json r.group)

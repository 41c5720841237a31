-- ===== src/Marshal/ConstraintSets.antt =====
-- api_structs.go: the json tags of constraints between resources.
use hawk_apiserver.Prelude.{◌++◌}
use hawk_apiserver.Text.{codes}
use hawk_apiserver.Json.{
  Json, object, text, text_omitempty, items_omitempty, list_omitempty, pointer_omitempty,
}
use hawk_apiserver.Cib.{
  ResourceRef, ResourceSet, RscLocation, RscColocation, RscOrder, RscTicket, Constraints,
}
use hawk_apiserver.Marshal.Conditions.{lifetime_json, rules_json}

unfoldable pub resource_ref_json : ResourceRef → Json
resource_ref_json r = object (text (codes "id") r.id)

unfoldable pub resource_set_json : ResourceSet → Json
resource_set_json r = object (
    text_omitempty (codes "id-ref") r.id_ref
    ++ text_omitempty (codes "id") r.id
    ++ text_omitempty (codes "sequential") r.sequential
    ++ text_omitempty (codes "require-all") r.require_all
    ++ text_omitempty (codes "ordering") r.ordering
    ++ text_omitempty (codes "action") r.action
    ++ text_omitempty (codes "role") r.role
    ++ text_omitempty (codes "score") r.score
    ++ text_omitempty (codes "kind") r.kind
    ++ list_omitempty (codes "resource_ref") resource_ref_json r.resource_ref)

unfoldable pub rsc_location_json : RscLocation → Json
rsc_location_json r = object (
    text (codes "id") r.id
    ++ text_omitempty (codes "rsc") r.rsc
    ++ text_omitempty (codes "rsc-pattern") r.rsc_pattern
    ++ text_omitempty (codes "role") r.role
    ++ list_omitempty (codes "resource_set") resource_set_json r.resource_set
    ++ text_omitempty (codes "score") r.score
    ++ text_omitempty (codes "node") r.node
    ++ items_omitempty (codes "rule") (rules_json r.rule)
    ++ pointer_omitempty (codes "lifetime") lifetime_json r.lifetime
    ++ text_omitempty (codes "resource-discovery") r.resource_discovery)

unfoldable pub rsc_colocation_json : RscColocation → Json
rsc_colocation_json r = object (
    text (codes "id") r.id
    ++ text_omitempty (codes "score") r.score
    ++ pointer_omitempty (codes "lifetime") lifetime_json r.lifetime
    ++ list_omitempty (codes "resource_set") resource_set_json r.resource_set
    ++ text_omitempty (codes "rsc") r.rsc
    ++ text_omitempty (codes "with-rsc") r.with_rsc
    ++ text_omitempty (codes "node-attribute") r.node_attribute
    ++ text_omitempty (codes "rsc-role") r.rsc_role
    ++ text_omitempty (codes "with-rsc-role") r.with_rsc_role)

unfoldable pub rsc_order_json : RscOrder → Json
rsc_order_json r = object (
    text (codes "id") r.id
    ++ pointer_omitempty (codes "lifetime") lifetime_json r.lifetime
    ++ text_omitempty (codes "symmetrical") r.symmetrical
    ++ text_omitempty (codes "require-all") r.require_all
    ++ text_omitempty (codes "score") r.score
    ++ text_omitempty (codes "kind") r.kind
    ++ list_omitempty (codes "resource_set") resource_set_json r.resource_set
    ++ text_omitempty (codes "first") r.first
    ++ text_omitempty (codes "then") r.then'
    ++ text_omitempty (codes "first-action") r.first_action
    ++ text_omitempty (codes "then-action") r.then_action)

unfoldable pub rsc_ticket_json : RscTicket → Json
rsc_ticket_json r = object (
    text (codes "id") r.id
    ++ list_omitempty (codes "resource_set") resource_set_json r.resource_set
    ++ text_omitempty (codes "rsc") r.rsc
    ++ text_omitempty (codes "rsc-role") r.rsc_role
    ++ text (codes "ticket") r.ticket
    ++ text_omitempty (codes "loss-policy") r.loss_policy)

unfoldable pub constraints_json : Constraints → Json
constraints_json r = object (
    list_omitempty (codes "rsc_location") rsc_location_json r.rsc_location
    ++ list_omitempty (codes "rsc_colocation") rsc_colocation_json r.rsc_colocation
    ++ list_omitempty (codes "rsc_order") rsc_order_json r.rsc_order
    ++ list_omitempty (codes "rsc_ticket") rsc_ticket_json r.rsc_ticket)

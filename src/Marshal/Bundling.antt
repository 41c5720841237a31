-- ===== src/Marshal/Bundling.antt =====
-- api_structs.go: the json tags of bundles, and the section of all resources.
use hawk_apiserver.Prelude.{◌++◌}
use hawk_apiserver.Text.{codes}
use hawk_apiserver.Json.{Json, object, text, text_omitempty, list_omitempty, pointer_omitempty}
use hawk_apiserver.Cib.{
  Docker, Rkt, PortMapping, Network, StorageMapping, Storage, Bundle, Resources,
}
use hawk_apiserver.Marshal.AttributeSets.{instance_attributes_json, meta_attributes_json}
use hawk_apiserver.Marshal.Primitives.{
  clone_json, group_json, master_json, primitive_json, template_json,
}

unfoldable pub docker_json : Docker → Json
docker_json r = object (
    text (codes "image") r.image
    ++ text_omitempty (codes "replicas") r.replicas
    ++ text_omitempty (codes "replicas-per-host") r.replicas_per_host
    ++ text_omitempty (codes "masters") r.masters
    ++ text_omitempty (codes "promoted-max") r.promoted_max
    ++ text_omitempty (codes "run-command") r.run_command
    ++ text_omitempty (codes "network") r.network
    ++ text_omitempty (codes "options") r.options)

unfoldable pub rkt_json : Rkt → Json
rkt_json r = object (
    text (codes "image") r.image
    ++ text_omitempty (codes "replicas") r.replicas
    ++ text_omitempty (codes "replicas-per-host") r.replicas_per_host
    ++ text_omitempty (codes "masters") r.masters
    ++ text_omitempty (codes "promoted-max") r.promoted_max
    ++ text_omitempty (codes "run-command") r.run_command
    ++ text_omitempty (codes "network") r.network
    ++ text_omitempty (codes "options") r.options)

unfoldable pub port_mapping_json : PortMapping → Json
port_mapping_json r = object (
    text (codes "id") r.id
    ++ text_omitempty (codes "port") r.port
    ++ text_omitempty (codes "internal-port") r.internal_port
    ++ text_omitempty (codes "range") r.range)

unfoldable pub network_json : Network → Json
network_json r = object (
    text_omitempty (codes "ip-range-start") r.ip_range_start
    ++ text_omitempty (codes "control-port") r.control_port
    ++ text_omitempty (codes "host-interface") r.host_interface
    ++ text_omitempty (codes "host-netmask") r.host_netmask
    ++ text_omitempty (codes "add-host") r.add_host
    ++ list_omitempty (codes "port-mapping") port_mapping_json r.port_mapping)

unfoldable pub storage_mapping_json : StorageMapping → Json
storage_mapping_json r = object (
    text (codes "id") r.id
    ++ text_omitempty (codes "source-dir") r.source_dir
    ++ text_omitempty (codes "source-dir-root") r.source_dir_root
    ++ text (codes "target-dir") r.target_dir
    ++ text_omitempty (codes "options") r.options)

unfoldable pub storage_json : Storage → Json
storage_json r =
    object (list_omitempty (codes "storage-mapping") storage_mapping_json r.storage_mapping)

unfoldable pub bundle_json : Bundle → Json
bundle_json r = object (
    text (codes "id") r.id
    ++ text_omitempty (codes "description") r.description
    ++ list_omitempty (codes "meta_attributes") meta_attributes_json r.meta_attributes
    ++ list_omitempty (codes "instance_attributes") instance_attributes_json r.instance_attributes
    ++ pointer_omitempty (codes "docker") docker_json r.docker
    ++ pointer_omitempty (codes "rkt") rkt_json r.rkt
    ++ pointer_omitempty (codes "network") network_json r.network
    ++ pointer_omitempty (codes "storage") storage_json r.storage
    ++ pointer_omitempty (codes "primitive") primitive_json r.primitive)

unfoldable pub resources_json : Resources → Json
resources_json r = object (
    list_omitempty (codes "primitive") primitive_json r.primitive
    ++ list_omitempty (codes "template") template_json r.template
    ++ list_omitempty (codes "group") group_json r.group
    ++ list_omitempty (codes "clone") clone_json r.clone
    ++ list_omitempty (codes "master") master_json r.master
    ++ list_omitempty (codes "bundle") bundle_json r.bundle)

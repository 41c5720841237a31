-- ===== src/Api.antt =====
-- api_common.go, api_nodes.go, api_resources.go, api_constraints.go and api_cluster.go: the JSON
-- answers of the configuration API.
pub mod Marshal
pub mod Url
pub mod Paths
pub mod Listing
pub mod Readable
pub mod Panicking
pub mod Reply
pub mod Nodes
pub mod Resources
pub mod Constraints
pub mod Cluster

-- ===== src/Marshal.antt =====
-- What encoding/json makes of the structs of api_structs.go, by their json tags.
mod Conditions
mod AttributeSets
mod NodeSets
mod Primitives
mod Bundling
mod ConstraintSets
unfoldable pub use Conditions.*
unfoldable pub use AttributeSets.*
unfoldable pub use NodeSets.*
unfoldable pub use Primitives.*
unfoldable pub use Bundling.*
unfoldable pub use ConstraintSets.*

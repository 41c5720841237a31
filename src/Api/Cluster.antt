-- ===== src/Api/Cluster.antt =====
-- api_cluster.go
pub mod Answer
use hawk_apiserver.Prelude.{Bool, false, Option, none, some}
use hawk_apiserver.Text.{Text, codes}
use hawk_apiserver.Outcome.{Outcome, done, ◌>>=◌, deref}
use hawk_apiserver.Cib.{Cib}
use hawk_apiserver.Http.{ResponseWriter, Request, set_header}
use hawk_apiserver.Api.Marshal.{write_cib}

module _ {W : Type 0} ⦃i : ResponseWriter W⦄ where
  unfoldable pub handle_api_cluster : (Text → Option Cib) → W → Request → Text → Outcome (W × Bool)
  handle_api_cluster unmarshal w r cib_data = elim (unmarshal cib_data) [
    | none ↦ done (w, false)
    | some cib ↦ do
      conf ← deref cib.configuration
      write_cib (record cib { configuration = some (record conf { url_type = codes "cluster" }) })
          (set_header (codes "Content-Type") (codes "application/json") w)
  ]

-- ===== src/Api/Cluster/Answer.antt =====
-- handle_api_cluster answers the cluster's properties, on every path.
use hawk_apiserver.Prelude.{◌≡◌, Option, some, text_beq}
use hawk_apiserver.Text.{Text}
use hawk_apiserver.Cib.{Cib, Configuration}
use hawk_apiserver.Json.{pointer}
use hawk_apiserver.Marshal.{crm_config_json}
use hawk_apiserver.Http.{ResponseWriter, Request}
use hawk_apiserver.Api.Marshal.{marshal_json, write_cib}
use hawk_apiserver.Api.Reply.{respond, as_json}
use hawk_apiserver.Api.Cluster.{handle_api_cluster}

module _ {W : Type 0} ⦃i : ResponseWriter W⦄ where
  -- For a document with a configuration the answer is its crm_config, null if there is none.
  pub handle_api_cluster_lem :
      (unmarshal : Text → Option Cib) (w : W) (r : Request) (cib_data : Text) (cib : Cib)
      (conf : Configuration)
      → unmarshal cib_data ≡ some cib
      → cib.configuration ≡ some conf
      → handle_api_cluster unmarshal w r cib_data
        ≡ respond r.url.path (as_json w) (some (pointer crm_config_json conf.crm_config))
  unfolding handle_api_cluster write_cib marshal_json text_beq
  handle_api_cluster_lem unmarshal w r cib_data cib conf p q = rw (p, handle_api_cluster, q)

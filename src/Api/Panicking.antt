-- ===== src/Api/Panicking.antt =====
-- When the handlers of the API panic: their index into the parts of the path is out of range.
use hawk_apiserver.Prelude.{
  ◌≡◌, ◌≢◌, ◌<◌, ◌↔◌, refl, Option, none, some, List, [], ◌∷◌, length, arith,
}
use hawk_apiserver.Text.{Text}
use hawk_apiserver.Outcome.{panic, ◌>>=◌}
use hawk_apiserver.Cib.{Cib, Configuration, Nodes, Resources, Constraints}
use hawk_apiserver.Json.{Json}
use hawk_apiserver.Marshal.{resources_json, constraints_json}
use hawk_apiserver.Http.{ResponseWriter, Request}
use hawk_apiserver.Api.Url.{url_list}
use hawk_apiserver.Api.Reply.{by_url, respond, as_json}
use hawk_apiserver.Api.Nodes.{handle_api_nodes}
use hawk_apiserver.Api.Nodes.Answer.{all_nodes, node_at, handle_api_nodes_lem}
use hawk_apiserver.Api.Resources.{handle_api_resources}
use hawk_apiserver.Api.Resources.Lookup as ResourceLookup
use hawk_apiserver.Api.Resources.Answer.{handle_api_resources_lem}
use hawk_apiserver.Api.Constraints.{handle_api_constraints}
use hawk_apiserver.Api.Constraints.Lookup as ConstraintLookup
use hawk_apiserver.Api.Constraints.Answer.{handle_api_constraints_lem}

module _ {W : Type 0} ⦃i : ResponseWriter W⦄ where
  respond-ne-panic : (path : Text) (w : W) (o : Option Json) → respond path w o ≢ panic
  respond-ne-panic path w none e = cc
  respond-ne-panic path w (some j) e = cc

  by_url-eq-panic :
      (all : Json) (one : Text → Option Json) (path : Text) (w : W) (l : List Text)
      → ((by_url all one l >>= respond path w) ≡ panic) ↔ (length l < 3)
  by_url-eq-panic all one path w [] = (λ _. omega arith, λ _. refl)
  by_url-eq-panic all one path w (_ ∷ []) = (λ _. omega arith, λ _. refl)
  by_url-eq-panic all one path w (_ ∷ _ ∷ []) = (λ _. omega arith, λ _. refl)
  by_url-eq-panic all one path w (_ ∷ _ ∷ _ ∷ []) =
      (λ e. absurd (respond-ne-panic path w (some all) e), λ h. absurd (omega arith))
  by_url-eq-panic all one path w (_ ∷ _ ∷ _ ∷ key ∷ _) =
      (λ e. absurd (respond-ne-panic path w (one key) e), λ h. absurd (omega arith))

  -- For a document that has the three sections, each of the three handlers panics exactly on the
  -- paths of less than three parts.
  pub handle_api-eq-panic :
      (unmarshal : Text → Option Cib) (w : W) (r : Request) (cib_data : Text) (cib : Cib)
      (conf : Configuration) (nodes : Nodes) (res : Resources) (cons : Constraints)
      → unmarshal cib_data ≡ some cib
      → cib.configuration ≡ some conf
      → conf.nodes ≡ some nodes
      → conf.resources ≡ some res
      → conf.constraints ≡ some cons
      → ((handle_api_nodes unmarshal w r cib_data ≡ panic) ↔ (length (url_list r.url.path) < 3))
        × ((handle_api_resources unmarshal w r cib_data ≡ panic)
            ↔ (length (url_list r.url.path) < 3))
        × ((handle_api_constraints unmarshal w r cib_data ≡ panic)
            ↔ (length (url_list r.url.path) < 3))
  handle_api-eq-panic unmarshal w r cib_data cib conf nodes res cons p q n s c =
      let path = r.url.path in
      let w' = as_json w in
      (
        rw (handle_api_nodes_lem unmarshal w r cib_data cib conf nodes p q n)
            (by_url-eq-panic (all_nodes nodes) (node_at nodes) path w' (url_list path)),
        rw (handle_api_resources_lem unmarshal w r cib_data cib conf res p q s) (
            by_url-eq-panic (resources_json res) (λ key. ResourceLookup.chosen key res) path w'
              (url_list path)),
        rw (handle_api_constraints_lem unmarshal w r cib_data cib conf cons p q c) (
            by_url-eq-panic (constraints_json cons) (λ key. ConstraintLookup.chosen key cons) path
              w' (url_list path)),
      )

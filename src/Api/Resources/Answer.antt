-- ===== src/Api/Resources/Answer.antt =====
-- handle_api_resources answers what the URL stands for, on every path.
use hawk_apiserver.Prelude.{◌≡◌, refl, inl, inr, List, ◌∷◌, [], Option, some, text_beq}
use hawk_apiserver.Text.{Text, codes}
use hawk_apiserver.Outcome.{done, ◌>>=◌}
use hawk_apiserver.Cib.{Cib, Configuration, Resources}
use hawk_apiserver.Marshal.{resources_json}
use hawk_apiserver.Http.{ResponseWriter, Request}
use hawk_apiserver.Api.Marshal.{marshal_json, marshal_resources, write_cib}
use hawk_apiserver.Api.Url.{url_list}
use hawk_apiserver.Api.Reply.{by_url, respond, as_json, not-three}
use hawk_apiserver.Api.Resources.{select_resource, handle_api_resources}
use hawk_apiserver.Api.Resources.Lookup.{chosen, Answers_lem}

-- MarshalJSON reaches the resources section.
marshal_json-resources :
    (cib : Cib) (conf : Configuration) (res : Resources)
    → conf.url_type ≡ codes "resources"
    → marshal_json (record cib { configuration = some (record conf { resources = some res }) })
      ≡ marshal_resources res
unfolding marshal_json text_beq
marshal_json-resources cib conf res e = rw e

marshal_resources_all :
    (res : Resources)
    → marshal_resources (record res { url_type = codes "all" }) ≡ done (resources_json res)
unfolding marshal_resources text_beq resources_json
marshal_resources_all res = refl

module _ {W : Type 0} ⦃i : ResponseWriter W⦄ where
  select_resource_lem :
      (path : Text) (cib : Cib) (conf : Configuration) (res : Resources) (urllist : List Text)
      (w : W)
      → conf.url_type ≡ codes "resources"
      → select_resource path cib conf res urllist w
        ≡ (by_url (resources_json res) (λ key. chosen key res) urllist >>= respond path w)
  unfolding select_resource write_cib
  select_resource_lem path cib conf res [] w e = refl
  select_resource_lem path cib conf res (_ ∷ []) w e = refl
  select_resource_lem path cib conf res (_ ∷ _ ∷ []) w e = refl
  select_resource_lem path cib conf res (_ ∷ _ ∷ _ ∷ []) w e =
      rw (write_cib, marshal_json-resources cib conf _ e, marshal_resources_all res)
  select_resource_lem path cib conf res (_ ∷ _ ∷ _ ∷ key ∷ more) w e = elim (Answers_lem res key) [
    | inl (p, q) ↦ rw (not-three more, select_resource, p, q)
    | inr (val, json, p, q, m) ↦
        rw
          (not-three more, select_resource, p, q, write_cib, marshal_json-resources cib conf _ e, m)
  ]

  -- For a document with a resources section the answer is the whole section, the resource with the
  -- identifier in the URL, an error, or a panic, by the URL alone.
  pub handle_api_resources_lem :
      (unmarshal : Text → Option Cib) (w : W) (r : Request) (cib_data : Text) (cib : Cib)
      (conf : Configuration) (res : Resources)
      → unmarshal cib_data ≡ some cib
      → cib.configuration ≡ some conf
      → conf.resources ≡ some res
      → handle_api_resources unmarshal w r cib_data ≡ (
          by_url (resources_json res) (λ key. chosen key res) (url_list r.url.path)
          >>= respond r.url.path (as_json w))
  unfolding handle_api_resources
  handle_api_resources_lem unmarshal w r cib_data cib conf res p q s =
      rw (p, handle_api_resources, q, s)
        (select_resource_lem r.url.path cib (record conf { url_type = codes "resources" }) res
          (url_list r.url.path) (as_json w) refl)

-- ===== src/Api/Readable.antt =====
-- What a client reads in the answers of the API.
use hawk_apiserver.Prelude.{
  ℕ, suc, ◌≡◌, refl, Bool, true, false, Option, none, some, List, [], ◌∷◌, ◌++◌, arith,
}
use hawk_apiserver.Text.{Text, codes}
use hawk_apiserver.Outcome.{Outcome, done, panic, ◌>>=◌}
use hawk_apiserver.Cib.{Cib, Configuration, Nodes, Resources, Constraints}
use hawk_apiserver.Api.Cluster.{handle_api_cluster}
use hawk_apiserver.Api.Cluster.Answer.{handle_api_cluster_lem}
use hawk_apiserver.Json.{pointer, Json, encode}
use hawk_apiserver.Json.Reading.{read_value, size, read-encode}
use hawk_apiserver.Marshal.{resources_json, constraints_json, crm_config_json}
use hawk_apiserver.Http.Laws.{send_body_on-sent}
use hawk_apiserver.Http.{
  Header, set, Response, response_writer, Request, set_header, write_string, http_error, send_body,
  send_body_on, send_header,
}
use hawk_apiserver.Api.Url.{url_list, no_route}
use hawk_apiserver.Api.Reply.{by_url, respond, as_json}
use hawk_apiserver.Api.Nodes.{handle_api_nodes}
use hawk_apiserver.Api.Nodes.Answer.{all_nodes, node_at, handle_api_nodes_lem}
use hawk_apiserver.Api.Resources.{handle_api_resources}
use hawk_apiserver.Api.Resources.Lookup as ResourceLookup
use hawk_apiserver.Api.Resources.Answer.{handle_api_resources_lem}
use hawk_apiserver.Api.Constraints.{handle_api_constraints}
use hawk_apiserver.Api.Constraints.Lookup as ConstraintLookup
use hawk_apiserver.Api.Constraints.Answer.{handle_api_constraints_lem}

-- A response whose status went out, with a value and a line feed as its body.
abbrev pub Carries : ℕ → Json → Response → Type 0
Carries code j r =
    ((h : Header) × (r.sent ≡ some (code, h)))
    × (read_value (suc (size j)) r.body ≡ some (j, codes "\n"))

-- The handler's outcome where the URL stands for a value, for nothing, or for no index.
abbrev pub Tells : Outcome (Option Json) → Outcome (Response × Bool) → Type 0
Tells panic o = o ≡ panic
Tells (done none) o =
    (r : Response) × (h : Header) × (o ≡ done (r, false)) × (r.sent ≡ some (500, h))
Tells (done (some j)) o = (r : Response) × (o ≡ done (r, true)) × Carries 200 j r

write_string-Carries :
    (j : Json) (r : Response) (o : Option Text)
    → o ≡ none
    → r.sent ≡ none
    → r.body ≡ []
    → Carries 200 j (send_body_on o (encode j ++ codes "\n") r).0
unfolding send_body_on send_header
write_string-Carries j r (some _) e n b = cc
write_string-Carries j r none e n b =
    (rw n (r.header, refl), rw b (read-encode (suc (size j)) j (codes "\n") (omega arith)))

respond-Tells :
    (path : Text) (r : Response) (o : Option Json)
    → r.sent ≡ none
    → r.broken ≡ none
    → r.body ≡ []
    → Tells (done o) (respond path (as_json r) o)
unfolding set_header write_string send_body http_error send_header
respond-Tells path r none n a b =
    let h : Header =
      set (set (as_json r).header (codes "Content-Type") (codes "text/plain; charset=utf-8"))
        (codes "X-Content-Type-Options") (codes "nosniff") in
    let r' : Response = send_header 500 (record r { header = h }) in
    let sent : r'.sent ≡ some (500, h) = rw n refl in
    (
      http_error (no_route path) 500 (as_json r),
      h,
      refl,
      send_body_on-sent r.broken (no_route path ++ codes "\n") r' sent,
    )
respond-Tells path r (some j) n a b = (
  write_string (encode j ++ codes "\n") (as_json r),
  refl,
  write_string-Carries j (as_json r) r.broken a n b,
)

by_url-Tells :
    (all : Json) (one : Text → Option Json) (path : Text) (r : Response) (l : List Text)
    → r.sent ≡ none
    → r.broken ≡ none
    → r.body ≡ []
    → Tells (by_url all one l) (by_url all one l >>= respond path (as_json r))
by_url-Tells all one path r [] n a b = refl
by_url-Tells all one path r (_ ∷ []) n a b = refl
by_url-Tells all one path r (_ ∷ _ ∷ []) n a b = refl
by_url-Tells all one path r (_ ∷ _ ∷ _ ∷ []) n a b = respond-Tells path r (some all) n a b
by_url-Tells all one path r (_ ∷ _ ∷ _ ∷ key ∷ _) n a b = respond-Tells path r (one key) n a b

-- On a live connection to which nothing was sent, and for a document that has the three sections,
-- the answer of each of the four handlers reads back as the value that the URL stands for, which for
-- the cluster is its crm_config whatever the URL: the response has status 200, and an independent
-- JSON reader, with fuel for the value's size, takes the value from the body and leaves the line
-- feed. Where the URL stands for nothing the status is 500 and the handler reports the request as
-- not served, and where it has too few parts the handler panics.
pub handle_api-read_value :
    (unmarshal : Text → Option Cib) (w : Response) (r : Request) (cib_data : Text) (cib : Cib)
    (conf : Configuration) (nodes : Nodes) (res : Resources) (cons : Constraints)
    → unmarshal cib_data ≡ some cib
    → cib.configuration ≡ some conf
    → conf.nodes ≡ some nodes
    → conf.resources ≡ some res
    → conf.constraints ≡ some cons
    → w.sent ≡ none
    → w.broken ≡ none
    → w.body ≡ []
    → Tells
        (by_url (all_nodes nodes) (node_at nodes) (url_list r.url.path))
        (handle_api_nodes unmarshal w r cib_data)
      × Tells
          (by_url (resources_json res) (λ key. ResourceLookup.chosen key res) (url_list r.url.path))
          (handle_api_resources unmarshal w r cib_data)
      × Tells
          (by_url
            (constraints_json cons)
            (λ key. ConstraintLookup.chosen key cons)
            (url_list r.url.path))
          (handle_api_constraints unmarshal w r cib_data)
      × Tells
          (done (some (pointer crm_config_json conf.crm_config)))
          (handle_api_cluster unmarshal w r cib_data)
handle_api-read_value unmarshal w r cib_data cib conf nodes res cons p q e s c n a b =
    let path = r.url.path in
    (
      rw (handle_api_nodes_lem unmarshal w r cib_data cib conf nodes p q e)
          (by_url-Tells (all_nodes nodes) (node_at nodes) path w (url_list path) n a b),
      rw (handle_api_resources_lem unmarshal w r cib_data cib conf res p q s) (
          by_url-Tells (resources_json res) (λ key. ResourceLookup.chosen key res) path w
            (url_list path) n a b),
      rw (handle_api_constraints_lem unmarshal w r cib_data cib conf cons p q c) (
          by_url-Tells (constraints_json cons) (λ key. ConstraintLookup.chosen key cons) path w
            (url_list path) n a b),
      rw (handle_api_cluster_lem unmarshal w r cib_data cib conf p q)
          (respond-Tells path w (some (pointer crm_config_json conf.crm_config)) n a b),
    )

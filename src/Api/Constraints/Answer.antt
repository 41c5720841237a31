-- ===== src/Api/Constraints/Answer.antt =====
-- handle_api_constraints answers what the URL stands for, on every path.
use hawk_apiserver.Prelude.{◌≡◌, refl, inl, inr, List, ◌∷◌, [], Option, some, text_beq}
use hawk_apiserver.Text.{Text, codes}
use hawk_apiserver.Outcome.{done, ◌>>=◌}
use hawk_apiserver.Cib.{Cib, Configuration, Constraints}
use hawk_apiserver.Marshal.{constraints_json}
use hawk_apiserver.Http.{ResponseWriter, Request}
use hawk_apiserver.Api.Marshal.{marshal_json, marshal_constraints, write_cib}
use hawk_apiserver.Api.Url.{url_list}
use hawk_apiserver.Api.Reply.{by_url, respond, as_json, not-three}
use hawk_apiserver.Api.Constraints.{select_constraint, handle_api_constraints}
use hawk_apiserver.Api.Constraints.Lookup.{chosen, Answers_lem}

-- MarshalJSON reaches the constraints section.
marshal_json-constraints :
    (cib : Cib) (conf : Configuration) (cons : Constraints)
    → conf.url_type ≡ codes "constraints"
    → marshal_json (record cib { configuration = some (record conf { constraints = some cons }) })
      ≡ marshal_constraints cons
unfolding marshal_json text_beq
marshal_json-constraints cib conf cons e = rw e

marshal_constraints_all :
    (cons : Constraints)
    → marshal_constraints (record cons { url_type = codes "all" }) ≡ done (constraints_json cons)
unfolding marshal_constraints text_beq constraints_json
marshal_constraints_all cons = refl

module _ {W : Type 0} ⦃i : ResponseWriter W⦄ where
  select_constraint_lem :
      (path : Text) (cib : Cib) (conf : Configuration) (cons : Constraints) (urllist : List Text)
      (w : W)
      → conf.url_type ≡ codes "constraints"
      → select_constraint path cib conf cons urllist w
        ≡ (by_url (constraints_json cons) (λ key. chosen key cons) urllist >>= respond path w)
  unfolding select_constraint write_cib
  select_constraint_lem path cib conf cons [] w e = refl
  select_constraint_lem path cib conf cons (_ ∷ []) w e = refl
  select_constraint_lem path cib conf cons (_ ∷ _ ∷ []) w e = refl
  select_constraint_lem path cib conf cons (_ ∷ _ ∷ _ ∷ []) w e =
      rw (write_cib, marshal_json-constraints cib conf _ e, marshal_constraints_all cons)
  select_constraint_lem path cib conf cons (_ ∷ _ ∷ _ ∷ key ∷ more) w e =
      elim (Answers_lem cons key) [
        | inl (p, q) ↦ rw (not-three more, select_constraint, p, q)
        | inr (val, json, p, q, m) ↦ rw (
          not-three more,
          select_constraint,
          p,
          q,
          write_cib,
          marshal_json-constraints cib conf _ e,
          m,
        )
      ]

  -- For a document with a constraints section the answer is the whole section, the constraint with the
  -- identifier in the URL, an error, or a panic, by the URL alone.
  pub handle_api_constraints_lem :
      (unmarshal : Text → Option Cib) (w : W) (r : Request) (cib_data : Text) (cib : Cib)
      (conf : Configuration) (cons : Constraints)
      → unmarshal cib_data ≡ some cib
      → cib.configuration ≡ some conf
      → conf.constraints ≡ some cons
      → handle_api_constraints unmarshal w r cib_data ≡ (
          by_url (constraints_json cons) (λ key. chosen key cons) (url_list r.url.path)
          >>= respond r.url.path (as_json w))
  unfolding handle_api_constraints
  handle_api_constraints_lem unmarshal w r cib_data cib conf cons p q s =
      rw (p, handle_api_constraints, q, s)
        (select_constraint_lem r.url.path cib (record conf { url_type = codes "constraints" }) cons
          (url_list r.url.path) (as_json w) refl)

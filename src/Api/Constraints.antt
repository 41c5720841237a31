-- ===== src/Api/Constraints.antt =====
-- api_constraints.go. `unmarshal` is encoding/xml's reading of a document into the structs; `none` is
-- an error.
pub mod Lookup
pub mod Answer
use hawk_apiserver.Prelude.{
  Bool, true, false, List, [], Option, none, some, ◌==◌, nat_eq, if◌then◌else◌, length,
}
use hawk_apiserver.Text.{Text, codes}
use hawk_apiserver.Map.{lookup}
use hawk_apiserver.Outcome.{Outcome, done, panic, ◌>>=◌, deref, index}
use hawk_apiserver.Cib.{
  Cib, Configuration, Constraints, RscLocation, RscColocation, RscOrder, TypeIndex,
}
use hawk_apiserver.Http.{ResponseWriter, Request, set_header, http_error}
use hawk_apiserver.Api.Marshal.{write_cib}
use hawk_apiserver.Api.Url.{url_list, no_route, index_items}

-- mapIdType, filled by the three loops
unfoldable pub constraint_index : Constraints → List (Text × TypeIndex)
unfolding index_items
constraint_index c = index_items (codes "order") RscOrder.id 0 c.rsc_order (
    index_items (codes "colocation") RscColocation.id 0 c.rsc_colocation
      (index_items (codes "location") RscLocation.id 0 c.rsc_location []))

module _ {W : Type 0} ⦃i : ResponseWriter W⦄ where
  unfoldable pub write_constraints : Cib → Configuration → W → Constraints → Outcome (W × Bool)
  write_constraints cib conf w s =
      write_cib (record cib { configuration = some (record conf { constraints = some s }) }) w

  -- `val, ok := mapIdType[id]` and its two branches
  unfoldable pub write_indexed :
      Text → Cib → Configuration → Constraints → W → Option TypeIndex → Outcome (W × Bool)
  unfolding no_route write_constraints
  write_indexed path cib conf s w none = done (http_error (no_route path) 500 w, false)
  write_indexed path cib conf s w (some val) =
      write_constraints cib conf w (record s { url_type = val.type; url_index = val.index })

  unfoldable pub select_constraint :
      Text → Cib → Configuration → Constraints → List Text → W → Outcome (W × Bool)
  unfolding constraint_index write_indexed write_constraints
  select_constraint path cib conf s urllist w =
      if length urllist == 3
      then write_constraints cib conf w (record s { url_type = codes "all" })
      else (do
        key ← index urllist 3
        write_indexed path cib conf s w (lookup (constraint_index s) key))

  unfoldable pub handle_api_constraints :
      (Text → Option Cib) → W → Request → Text → Outcome (W × Bool)
  unfolding url_list select_constraint
  handle_api_constraints unmarshal w r cib_data = elim (unmarshal cib_data) [
    | none ↦ done (w, false)
    | some cib ↦ do
      conf ← deref cib.configuration
      constraints ← deref conf.constraints
      select_constraint r.url.path cib (record conf { url_type = codes "constraints" }) constraints
          (url_list r.url.path) (set_header (codes "Content-Type") (codes "application/json") w)
  ]

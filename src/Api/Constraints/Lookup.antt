-- ===== src/Api/Constraints/Lookup.antt =====
-- What /configuration/constraints/{id} answers: the constraint with that identifier.
use mathlib.Core.Option
use native.Mathlib.Nat.{zero-add}
use hawk_apiserver.Prelude.{◌≡◌, refl, ◌⊎◌, inl, inr, Option, none, some, text_beq}
use hawk_apiserver.Text.{Text, codes}
use hawk_apiserver.Map.{lookup}
use hawk_apiserver.Outcome.{done}
use hawk_apiserver.Cib.{Constraints, RscLocation, RscColocation, RscOrder, TypeIndex}
use hawk_apiserver.Json.{Json}
use hawk_apiserver.Marshal.{rsc_location_json, rsc_colocation_json, rsc_order_json}
use hawk_apiserver.Api.Marshal.{marshal_constraints}
use hawk_apiserver.Api.Url.Index.{
  or_else, indexed, last_index, find_last, lookup-index_items, last_index-find_last,
}
use hawk_apiserver.Api.Constraints.{constraint_index}

-- The constraint that the identifier stands for: an order before a colocation, a colocation before a
-- location, and among one kind the last.
pub chosen : Text → Constraints → Option Json
chosen key c = or_else (Option.map rsc_order_json (find_last RscOrder.id key c.rsc_order)) (
    or_else (Option.map rsc_colocation_json (find_last RscColocation.id key c.rsc_colocation))
      (Option.map rsc_location_json (find_last RscLocation.id key c.rsc_location)))

lookup-constraint_index :
    (c : Constraints) (key : Text)
    → lookup (constraint_index c) key
      ≡ or_else (indexed (codes "order") (last_index RscOrder.id key 0 c.rsc_order)) (
          or_else
            (indexed (codes "colocation") (last_index RscColocation.id key 0 c.rsc_colocation))
            (or_else
              (indexed (codes "location") (last_index RscLocation.id key 0 c.rsc_location))
              none))
unfolding constraint_index lookup
lookup-constraint_index c key = rw (
  lookup-index_items (codes "order") RscOrder.id key 0 c.rsc_order _,
  lookup-index_items (codes "colocation") RscColocation.id key 0 c.rsc_colocation _,
  lookup-index_items (codes "location") RscLocation.id key 0 c.rsc_location _,
)

-- The entry of the map, the constraint chosen, and what MarshalJSON makes of the entry.
abbrev pub Answers : Constraints → Text → Type 0
Answers c key =
    ((lookup (constraint_index c) key ≡ none) × (chosen key c ≡ none))
    ⊎ ((val : TypeIndex) × (json : Json) × (lookup (constraint_index c) key ≡ some val)
        × (chosen key c ≡ some json)
        × (marshal_constraints (record c { url_type = val.type; url_index = val.index })
            ≡ done json))

pub Answers_lem : (c : Constraints) (key : Text) → Answers c key
unfolding chosen marshal_constraints text_beq
Answers_lem c key =
    rw (lookup-constraint_index c key) (elim (last_index-find_last RscOrder.id key 0 c.rsc_order) [
      | inr (i, x, p, q, g) ↦
          rw (p, q, zero-add)
            (inr (record { type = codes "order"; index = i }, rsc_order_json x, refl, refl, rw g))
      | inl (p, q) ↦
          rw (p, q)
            (elim (last_index-find_last RscColocation.id key 0 c.rsc_colocation) [
              | inr (i, x, p, q, g) ↦
                  rw (p, q, zero-add)
                    (inr (
                      record { type = codes "colocation"; index = i },
                      rsc_colocation_json x,
                      refl,
                      refl,
                      rw g,
                    ))
              | inl (p, q) ↦
                  rw (p, q)
                    (elim (last_index-find_last RscLocation.id key 0 c.rsc_location) [
                      | inr (i, x, p, q, g) ↦
                          rw (p, q, zero-add)
                            (inr (
                              record { type = codes "location"; index = i },
                              rsc_location_json x,
                              refl,
                              refl,
                              rw g,
                            ))
                      | inl (p, q) ↦ rw (p, q) (inl (refl, refl))
                    ])
            ])
    ])

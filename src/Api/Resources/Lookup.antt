-- ===== src/Api/Resources/Lookup.antt =====
-- What /configuration/resources/{id} answers: the resource with that identifier.
use mathlib.Core.Option
use native.Mathlib.Nat.{zero-add}
use hawk_apiserver.Prelude.{◌≡◌, refl, ◌⊎◌, inl, inr, Option, none, some, text_beq}
use hawk_apiserver.Text.{Text, codes}
use hawk_apiserver.Map.{lookup}
use hawk_apiserver.Outcome.{done}
use hawk_apiserver.Cib.{Resources, Primitive, Group, Clone, Master, TypeIndex}
use hawk_apiserver.Json.{Json}
use hawk_apiserver.Marshal.{primitive_json, group_json, clone_json, master_json}
use hawk_apiserver.Api.Marshal.{marshal_resources}
use hawk_apiserver.Api.Url.Index.{
  or_else, indexed, last_index, find_last, lookup-index_items, last_index-find_last,
}
use hawk_apiserver.Api.Resources.{resource_index}

-- The resource that the identifier stands for: a master before a clone, a clone before a group, a
-- group before a primitive, and among one kind the last.
pub chosen : Text → Resources → Option Json
chosen key r = or_else (Option.map master_json (find_last Master.id key r.master)) (
    or_else (Option.map clone_json (find_last Clone.id key r.clone)) (
      or_else (Option.map group_json (find_last Group.id key r.group))
        (Option.map primitive_json (find_last Primitive.id key r.primitive))))

lookup-resource_index :
    (r : Resources) (key : Text)
    → lookup (resource_index r) key
      ≡ or_else (indexed (codes "master") (last_index Master.id key 0 r.master)) (
          or_else (indexed (codes "clone") (last_index Clone.id key 0 r.clone)) (
            or_else (indexed (codes "group") (last_index Group.id key 0 r.group)) (
              or_else
                (indexed (codes "primitive") (last_index Primitive.id key 0 r.primitive))
                none)))
unfolding resource_index lookup
lookup-resource_index r key = rw (
  lookup-index_items (codes "master") Master.id key 0 r.master _,
  lookup-index_items (codes "clone") Clone.id key 0 r.clone _,
  lookup-index_items (codes "group") Group.id key 0 r.group _,
  lookup-index_items (codes "primitive") Primitive.id key 0 r.primitive _,
)

-- The entry of the map, the resource chosen, and what MarshalJSON makes of the entry.
abbrev pub Answers : Resources → Text → Type 0
Answers r key =
    ((lookup (resource_index r) key ≡ none) × (chosen key r ≡ none))
    ⊎ ((val : TypeIndex) × (json : Json) × (lookup (resource_index r) key ≡ some val)
        × (chosen key r ≡ some json)
        × (marshal_resources (record r { url_type = val.type; url_index = val.index }) ≡ done json))

pub Answers_lem : (r : Resources) (key : Text) → Answers r key
unfolding chosen marshal_resources text_beq
Answers_lem r key =
    rw (lookup-resource_index r key) (elim (last_index-find_last Master.id key 0 r.master) [
      | inr (i, x, p, q, g) ↦
          rw (p, q, zero-add)
            (inr (record { type = codes "master"; index = i }, master_json x, refl, refl, rw g))
      | inl (p, q) ↦
          rw (p, q)
            (elim (last_index-find_last Clone.id key 0 r.clone) [
              | inr (i, x, p, q, g) ↦
                  rw (p, q, zero-add)
                    (inr
                      (record { type = codes "clone"; index = i }, clone_json x, refl, refl, rw g))
              | inl (p, q) ↦
                  rw (p, q)
                    (elim (last_index-find_last Group.id key 0 r.group) [
                      | inr (i, x, p, q, g) ↦
                          rw (p, q, zero-add)
                            (inr (
                              record { type = codes "group"; index = i },
                              group_json x,
                              refl,
                              refl,
                              rw g,
                            ))
                      | inl (p, q) ↦
                          rw (p, q)
                            (elim (last_index-find_last Primitive.id key 0 r.primitive) [
                              | inr (i, x, p, q, g) ↦
                                  rw (p, q, zero-add)
                                    (inr (
                                      record { type = codes "primitive"; index = i },
                                      primitive_json x,
                                      refl,
                                      refl,
                                      rw g,
                                    ))
                              | inl (p, q) ↦ rw (p, q) (inl (refl, refl))
                            ])
                    ])
            ])
    ])

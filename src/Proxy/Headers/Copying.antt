-- ===== src/Proxy/Headers/Copying.antt =====
-- How copyHeader merges the backend's header into the response's.
use hawk_apiserver.Prelude.{
  ◌≡◌, refl, List, [], ◌∷◌, ◌++◌, Option, none, some, ◌==◌, text_eq, text_beq_iff, text_beq,
  if◌then◌else◌, Bool-cases, inl, inr, arith, append_assoc, append-nil,
}
use hawk_apiserver.Text.{Text, codes}
use hawk_apiserver.Map.{lookup, delete}
use hawk_apiserver.Map.Laws.{lookup-delete, lookup-insert}
use hawk_apiserver.Http.{Header, canonical, add, del, all_values}
use hawk_apiserver.Proxy.Headers.{skip_headers, among, add_all, copy_field, copy_header}

-- No values stand for no field.
abbrev pub field_of : List Text → Option (List Text)
field_of [] = none
field_of (v ∷ vs) = some (v ∷ vs)

-- The field after the copy, from its name, the backend's values and the field before: six fields
-- keep what they have, Server gets the backend's values too, and any other is replaced.
pub merged : Text → List Text → Option (List Text) → Option (List Text)
merged k vv none = field_of vv
merged k vv (some old) =
    if among k skip_headers
    then some old
    else if k == codes "Server"
    then some (old ++ vv)
    else field_of vv

-- The values behind those of a field.
abbrev extend : Option (List Text) → List Text → Option (List Text)
extend o [] = o
extend o (v ∷ vs) = some (all_values o ++ v ∷ vs)

extend-some :
    (xs : List Text) (v : Text) (vv : List Text)
    → extend (some (xs ++ v ∷ [])) vv ≡ some (xs ++ v ∷ vv)
extend-some xs v [] = refl
extend-some xs v (u ∷ vv) = rw append_assoc

lookup-add :
    (h : Header) (k v j : Text)
    → canonical k ≡ k
    → lookup (add h k v) j
      ≡ (if k == j then some (all_values (lookup h j) ++ v ∷ []) else lookup h j)
unfolding add
lookup-add h k v j e =
    rw e (ground (arith, text_beq_iff k j, lookup-insert h k j (all_values (lookup h k) ++ v ∷ [])))

lookup-add_all :
    (dst : Header) (k : Text) (vv : List Text) (j : Text)
    → canonical k ≡ k
    → lookup (add_all dst k vv) j ≡ (if k == j then extend (lookup dst j) vv else lookup dst j)
unfolding add_all
lookup-add_all dst k [] j e = ground arith
lookup-add_all dst k (v ∷ vv) j e =
    rw (lookup-add_all (add dst k v) k vv j e, lookup-add dst k v j e)
      (elim (Bool-cases (text_beq k j)) [
        | inl p ↦ rw p (extend-some (all_values (lookup dst j)) v vv)
        | inr p ↦ rw p
      ])

extend-none : (vv : List Text) → extend none vv ≡ field_of vv
extend-none [] = refl
extend-none (v ∷ vv) = refl

-- `Server` gets a field without values as it is.
extend-append : (old vv : List Text) → extend (some old) vv ≡ some (old ++ vv)
extend-append old [] = rw append-nil
extend-append old (v ∷ vv) = refl

lookup-copy_field :
    (dst : Header) (k : Text) (vv : List Text) (j : Text) (o : Option (List Text))
    → canonical k ≡ k
    → lookup dst k ≡ o
    → lookup (copy_field dst k vv o) j ≡ (if k == j then merged k vv o else lookup dst j)
unfolding copy_field merged del
lookup-copy_field dst k vv j none e at =
    ground (arith, lookup-add_all dst k vv j e, extend-none vv, text_beq_iff k j)
lookup-copy_field dst k vv j (some old) e at = rw e (
    ground (
      arith,
      lookup-add_all dst k vv j e,
      lookup-add_all (delete dst k) k vv j e,
      lookup-delete dst k j,
      extend-none vv,
      extend-append old vv,
      text_beq_iff k j,
    ))

-- The names of a header from the network: each once, in canonical form.
abbrev pub IsCanonical : Header → Type 0
IsCanonical [] = Unit
IsCanonical ((k, vv) ∷ h) = (canonical k ≡ k) × (lookup h k ≡ none) × IsCanonical h

abbrev pub merged_or : Text → Option (List Text) → Option (List Text) → Option (List Text)
merged_or j none old = old
merged_or j (some vv) old = merged j vv old

-- If the backend's header has each name once and in canonical form, each field of the response is
-- merged with the backend's field of that name, and fields that the backend does not send stay as
-- they are.
pub lookup-copy_header :
    (src dst : Header) (j : Text)
    → IsCanonical src
    → lookup (copy_header dst src) j ≡ merged_or j (lookup src j) (lookup dst j)
unfolding copy_header lookup
lookup-copy_header [] dst j _ = refl
lookup-copy_header ((k, vv) ∷ src) dst j (e, once, rest) = ground (
  arith,
  lookup-copy_header src (copy_field dst k vv (lookup dst k)) j rest,
  lookup-copy_field dst k vv j (lookup dst k) e refl,
  text_beq_iff k j,
)

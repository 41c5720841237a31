-- ===== src/Map/Laws.antt =====
-- The laws of map lookup.
use hawk_apiserver.Prelude.{
  ◌≡◌, refl, none, some, List, [], ◌∷◌, ◌==◌, text_eq, text_beq_iff, if◌then◌else◌, arith,
}
use hawk_apiserver.Text.{Text}
use hawk_apiserver.Map.{lookup, insert, delete}

module _ {ℓ} {V : Type ℓ} where
  pub lookup-insert :
      (m : List (Text × V)) (k j : Text) (v : V)
      → lookup (insert m k v) j ≡ (if k == j then some v else lookup m j)
  unfolding lookup insert
  lookup-insert [] k j v = refl
  lookup-insert ((i, w) ∷ m) k j v =
      ground (arith, text_beq_iff k j, text_beq_iff i k, text_beq_iff i j, lookup-insert m k j v)

  pub lookup-delete :
      (m : List (Text × V)) (k j : Text)
      → lookup (delete m k) j ≡ (if k == j then none else lookup m j)
  unfolding lookup delete
  lookup-delete [] k j = ground (arith, text_beq_iff k j)
  lookup-delete ((i, w) ∷ m) k j =
      ground (arith, text_beq_iff k j, text_beq_iff i k, text_beq_iff i j, lookup-delete m k j)

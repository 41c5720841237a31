-- ===== src/Map.antt =====
-- Go maps with string keys, as association lists.
pub mod Laws
use hawk_apiserver.Prelude.{Option, none, some, List, [], ◌∷◌, ◌==◌, text_eq, if◌then◌else◌}
use hawk_apiserver.Text.{Text}

module _ {ℓ} {V : Type ℓ} where
  -- `v, ok := m[k]`
  unfoldable pub lookup : List (Text × V) → Text → Option V
  lookup [] k = none
  lookup ((j, v) ∷ m) k = if j == k then some v else lookup m k

  -- `m[k] = v`
  unfoldable pub insert : List (Text × V) → Text → V → List (Text × V)
  insert [] k v = (k, v) ∷ []
  insert ((j, w) ∷ m) k v = if j == k then (k, v) ∷ m else (j, w) ∷ insert m k v

  -- `delete(m, k)`
  unfoldable pub delete : List (Text × V) → Text → List (Text × V)
  delete [] k = []
  delete ((j, v) ∷ m) k = if j == k then delete m k else (j, v) ∷ delete m k

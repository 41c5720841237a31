-- ===== src/Api/Url.antt =====
-- What the API handlers share: the parts of a request's path, the error for an unknown item, and
-- the map from identifiers to TypeIndex that two of them build.
pub mod Index
use hawk_apiserver.Prelude.{ℕ, suc, List, ◌∷◌, [], ◌++◌}
use hawk_apiserver.Text.{Text, codes, split, trim}
use hawk_apiserver.Cib.{TypeIndex}
use hawk_apiserver.Map.{insert}

-- `strings.Split(strings.Trim(path, "/"), "/")`
unfoldable pub url_list : Text → List Text
url_list path = split (trim path b'/') b'/'

unfoldable pub no_route : Text → Text
no_route path = codes "No route for " ++ path ++ codes "."

-- `for i, item := range items { m[item.Id] = TypeIndex{type, i} }`, from index `at`
unfoldable pub index_items {ℓ} :
    {A : Type ℓ}
    → Text
    → (A → Text)
    → ℕ
    → List A
    → List (Text × TypeIndex)
    → List (Text × TypeIndex)
index_items type id at [] m = m
index_items type id at (x ∷ xs) m =
    index_items type id (suc at) xs (insert m (id x) (record { type = type; index = at }))

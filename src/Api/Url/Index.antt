-- ===== src/Api/Url/Index.antt =====
-- What a lookup in the map of identifiers finds: the last item with the identifier.
use hawk_apiserver.Prelude.{
  ℕ, suc, ◌+◌, ◌≡◌, refl, ◌≢◌, All, List, ◌∷◌, [], Option, none, some, ◌==◌, text_eq, if◌then◌else◌,
  arith, text_beq_iff, get_elem?, ◌⊎◌, inl, inr, Option-cases, Bool-cases,
}
use hawk_apiserver.Text.{Text}
use hawk_apiserver.Cib.{TypeIndex}
use hawk_apiserver.Map.{lookup, insert}
use hawk_apiserver.Map.Laws.{lookup-insert}
use hawk_apiserver.Api.Url.{index_items}

abbrev pub or_else {ℓ} : {A : Type ℓ} → Option A → Option A → Option A
or_else none o = o
or_else (some a) o = some a

module _ {A : Type 0} (id : A → Text) (key : Text) where
  -- The last item with the identifier `key`.
  unfoldable pub find_last : List A → Option A
  find_last [] = none
  find_last (x ∷ xs) = or_else (find_last xs) (if id x == key then some x else none)

  -- Its index, counted from `at`.
  unfoldable pub last_index : ℕ → List A → Option ℕ
  last_index at [] = none
  last_index at (x ∷ xs) = or_else (last_index (suc at) xs) (if id x == key then some at else none)

abbrev pub indexed : Text → Option ℕ → Option TypeIndex
indexed type none = none
indexed type (some i) = some (record { type = type; index = i })

module _ {A : Type 0} (type : Text) (id : A → Text) (key : Text) where
  pub lookup-index_items :
      (at : ℕ) (xs : List A) (m : List (Text × TypeIndex))
      → lookup (index_items type id at xs m) key
        ≡ or_else (indexed type (last_index id key at xs)) (lookup m key)
  unfolding index_items last_index
  lookup-index_items at [] m = refl
  lookup-index_items at (x ∷ xs) m = ground (
    arith,
    lookup-index_items (suc at) xs (insert m (id x) (record { type = type; index = at })),
    lookup-insert m (id x) key (record { type = type; index = at }),
  )

module _ {A : Type 0} (id : A → Text) (key : Text) where
  -- The index points at the item.
  pub last_index-find_last :
      (at : ℕ) (xs : List A)
      → ((last_index id key at xs ≡ none) × (find_last id key xs ≡ none))
        ⊎ ((i : ℕ) × (x : A) × (last_index id key at xs ≡ some (at + i))
            × (find_last id key xs ≡ some x)
            × (get_elem? xs i ≡ some x))
  unfolding last_index find_last
  last_index-find_last at [] = inl (refl, refl)
  last_index-find_last at (x ∷ xs) = elim (last_index-find_last (suc at) xs) [
    | inr (i, y, p, q, r) ↦ inr (suc i, y, ground arith, ground arith, r)
    | inl (p, q) ↦ elim (Bool-cases (id x == key)) [
      | inl same ↦ inr (0, x, ground arith, ground arith, refl)
      | inr other ↦ inl (ground arith, ground arith)
    ]
  ]

  -- What is found has the identifier.
  pub find_last_sound : (xs : List A) (x : A) → find_last id key xs ≡ some x → id x ≡ key
  unfolding find_last
  find_last_sound [] x e = cc
  find_last_sound (y ∷ xs) x e = elim (Option-cases (find_last id key xs)) [
    | inr (z, q) ↦ find_last_sound xs x (ground arith)
    | inl q ↦ ground (arith, text_beq_iff (id y) key)
  ]

  -- An item with the identifier is found unless none has it.
  pub find_last_complete : (xs : List A) → find_last id key xs ≡ none → All (λ x. id x ≢ key) xs
  unfolding find_last
  find_last_complete [] e = tt
  find_last_complete (y ∷ xs) e = elim (Option-cases (find_last id key xs)) [
    | inr (z, q) ↦ ground arith
    | inl q ↦ (ground (arith, text_beq_iff (id y) key), find_last_complete xs q)
  ]

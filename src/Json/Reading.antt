-- ===== src/Json/Reading.antt =====
-- Reading JSON values, independently of the writer: a recursive descent with fuel for its depth and
-- breadth, more than the size of the value being enough.
use hawk_apiserver.Prelude.{
  ℕ, zero, suc, ◌+◌, ◌<◌, ◌≡◌, refl, Bool, true, false, [], ◌∷◌, ◌++◌, Option, none, some,
  if◌then◌else◌, arith, ◌==◌, nat_eq, append_assoc,
}
use hawk_apiserver.Text.{Text, codes}
use hawk_apiserver.Json.{
  Json, null, str, arr, obj, Items, nil, cons, Members, end, member, encode, encode_items,
  encode_members, quote,
}
use hawk_apiserver.Json.Strings.{plain, read_string, read_string-escape}

abbrev pub and_then {ℓ κ} : {A : Type ℓ} {B : Type κ} → Option A → (A → Option B) → Option B
and_then none f = none
and_then (some a) f = f a

-- The rest of the text behind the given byte.
abbrev pub behind : ℕ → Text → Option Text
behind b [] = none
behind b (c ∷ s) = if c == b then some s else none

abbrev pub behind_text : Text → Text → Option Text
behind_text [] s = some s
behind_text (b ∷ t) s = and_then (behind b s) (behind_text t)

-- Elements but the first stand behind a comma.
abbrev pub behind_comma : Bool → Text → Option Text
behind_comma true s = some s
behind_comma false s = behind b',' s

-- The kind of value that a byte begins.
pub data Lead : Type 0 where
  of_null of_string of_array of_object of_none : Lead

abbrev pub lead : ℕ → Lead
lead c =
    if c == b'n'
    then of_null
    else if c == b'"'
    then of_string
    else if c == b'['
    then of_array
    else if c == b'{'
    then of_object
    else of_none

unfoldable mutual
  pub read_value : ℕ → Text → Option (Json × Text)
  read_value zero s = none
  read_value (suc f) [] = none
  read_value (suc f) (c ∷ s) = elim (lead c) [
    | of_null ↦ and_then (behind_text (codes "ull") s) (λ r. some (null, r))
    | of_string ↦ and_then (read_string plain s) (λ p. some (str p.0, p.1))
    | of_array ↦ and_then (read_items f true s) (λ p. some (arr p.0, p.1))
    | of_object ↦ and_then (read_members f true s) (λ p. some (obj p.0, p.1))
    | of_none ↦ none
  ]

  pub read_items : ℕ → Bool → Text → Option (Items × Text)
  read_items zero first s = none
  read_items (suc f) first s = elim (behind b']' s) [
    | some r ↦ some (nil, r)
    | none ↦ and_then (behind_comma first s) λ r.
        and_then (read_value f r)
          λ p. and_then (read_items f false p.1) λ q. some (cons p.0 q.0, q.1)
  ]

  pub read_members : ℕ → Bool → Text → Option (Members × Text)
  read_members zero first s = none
  read_members (suc f) first s = elim (behind b'}' s) [
    | some r ↦ some (end, r)
    | none ↦ and_then (behind_comma first s) λ r. and_then (behind b'"' r) λ k.
        and_then (read_string plain k) λ n. and_then (behind b':' n.1) λ v.
          and_then (read_value f v)
            λ p. and_then (read_members f false p.1) λ q. some (member n.0 p.0 q.0, q.1)
  ]

unfoldable mutual
  pub size : Json → ℕ
  size null = 0
  size (str s) = 0
  size (arr vs) = suc (size_items vs)
  size (obj ms) = suc (size_members ms)

  pub size_items : Items → ℕ
  size_items nil = 0
  size_items (cons v vs) = suc (size v + size_items vs)

  pub size_members : Members → ℕ
  size_members end = 0
  size_members (member k v ms) = suc (size v + size_members ms)

-- No value begins like the end of an array.
behind-encode : (v : Json) (s : Text) → behind b']' (encode v ++ s) ≡ none
unfolding encode
behind-encode null s = refl
behind-encode (str t) s = refl
behind-encode (arr vs) s = refl
behind-encode (obj ms) s = refl

mutual
  unfolding read_value encode size quote

  read_value-encode :
      (f : ℕ) (v : Json) (s : Text) → size v < f → read_value f (encode v ++ s) ≡ some (v, s)
  read_value-encode zero v s h = absurd (omega arith)
  read_value-encode (suc f) null s h = refl
  read_value-encode (suc f) (str t) s h = rw (append_assoc, read_string-escape t s) refl
  read_value-encode (suc f) (arr vs) s h =
      rw (append_assoc, read_items-encode f true vs s (omega arith)) refl
  read_value-encode (suc f) (obj ms) s h =
      rw (append_assoc, read_members-encode f true ms s (omega arith)) refl

  read_items-encode :
      (f : ℕ) (first : Bool) (vs : Items) (s : Text)
      → size_items vs < f
      → read_items f first (encode_items first vs ++ b']' ∷ s) ≡ some (vs, s)
  read_items-encode zero first vs s h = absurd (omega arith)
  read_items-encode (suc f) first nil s h = refl
  read_items-encode (suc f) true (cons v vs) s h = rw (
    append_assoc,
    read_items,
    behind-encode v (encode_items false vs ++ b']' ∷ s),
    append_assoc,
    read_value-encode f v (encode_items false vs ++ b']' ∷ s) (omega arith),
    read_items-encode f false vs s (omega arith),
  )
  read_items-encode (suc f) false (cons v vs) s h = rw (
    append_assoc,
    read_value-encode f v (encode_items false vs ++ b']' ∷ s) (omega arith),
    read_items-encode f false vs s (omega arith),
  )

  read_members-encode :
      (f : ℕ) (first : Bool) (ms : Members) (s : Text)
      → size_members ms < f
      → read_members f first (encode_members first ms ++ b'}' ∷ s) ≡ some (ms, s)
  read_members-encode zero first ms s h = absurd (omega arith)
  read_members-encode (suc f) first end s h = refl
  read_members-encode (suc f) true (member k v ms) s h = rw (
    append_assoc,
    append_assoc,
    append_assoc,
    read_string-escape k (b':' ∷ (encode v ++ (encode_members false ms ++ b'}' ∷ s))),
    read_value-encode f v (encode_members false ms ++ b'}' ∷ s) (omega arith),
    read_members-encode f false ms s (omega arith),
  )
  read_members-encode (suc f) false (member k v ms) s h = rw (
    append_assoc,
    append_assoc,
    append_assoc,
    read_string-escape k (b':' ∷ (encode v ++ (encode_members false ms ++ b'}' ∷ s))),
    read_value-encode f v (encode_members false ms ++ b'}' ∷ s) (omega arith),
    read_members-encode f false ms s (omega arith),
  )

-- What is written reads back, and the reader stops where the value ends.
pub read-encode :
    (f : ℕ) (v : Json) (s : Text) → size v < f → read_value f (encode v ++ s) ≡ some (v, s)
read-encode f v s h = read_value-encode f v s h

-- ===== src/Http/Fields.antt =====
-- http.Header: a map from canonical names to lists of values.
use hawk_apiserver.Prelude.{
  ℕ, Bool, true, false, ◌&&◌, ◌||◌, List, [], ◌∷◌, ◌++◌, Option, none, some, leb, ◌==◌, nat_eq,
  text_eq, if◌then◌else◌,
}
use hawk_apiserver.Text.{Text, codes, lower_byte, upper_byte}
use hawk_apiserver.Map.{lookup, insert, delete}

abbrev pub Header : Type 0
Header = List (Text × List Text)

-- A byte that may stand in a field's name.
is_token_byte : ℕ → Bool
is_token_byte c =
    (leb b'a' c && leb c b'z')
    || (leb b'A' c && leb c b'Z')
    || (leb b'0' c && leb c b'9')
    || among (codes "!#$%&'*+-.^_`|~")
  where
    among : Text → Bool
    among [] = false
    among (d ∷ s) = d == c || among s

is_token : Text → Bool
unfolding is_token_byte
is_token [] = true
is_token (c ∷ s) = is_token_byte c && is_token s

-- Letters in upper case at the start and after each hyphen, and in lower case elsewhere.
capitals : Bool → Text → Text
capitals up [] = []
capitals up (c ∷ s) = (if up then upper_byte c else lower_byte c) ∷ capitals (c == b'-') s

-- textproto.CanonicalMIMEHeaderKey
unfoldable pub canonical : Text → Text
unfolding is_token capitals upper_byte lower_byte
canonical k = if is_token k then capitals true k else k

abbrev pub first_value : Option (List Text) → Text
first_value (some (v ∷ vs)) = v
first_value _ = []

abbrev pub all_values : Option (List Text) → List Text
all_values (some vs) = vs
all_values none = []

-- Header.Get
unfoldable pub get : Header → Text → Text
get h k = first_value (lookup h (canonical k))

-- Header.Set
unfoldable pub set : Header → Text → Text → Header
set h k v = insert h (canonical k) (v ∷ [])

-- Header.Add
unfoldable pub add : Header → Text → Text → Header
add h k v = insert h (canonical k) (all_values (lookup h (canonical k)) ++ v ∷ [])

-- Header.Del
unfoldable pub del : Header → Text → Header
del h k = delete h (canonical k)

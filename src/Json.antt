-- ===== src/Json.antt =====
-- encoding/json: values, objects built field by field as Marshal does, and their text.
pub mod Strings
pub mod Reading
use hawk_apiserver.Prelude.{
  ℕ, ◌+◌, ◌++◌, List, [], ◌∷◌, Option, none, some, Bool, true, false, ◌||◌, if◌then◌else◌, ltb, ◌≡◌,
  refl, ◌==◌, nat_eq,
}
use hawk_apiserver.Text.{Text, codes}
use hawk_apiserver.Text.Hex.{hex_digit}
use Prim.Native.Nat.{◌/◌, ◌%◌}

mutual
  pub data Json : Type 0 where
    null : Json
    str : Text → Json
    arr : Items → Json
    obj : Members → Json

  pub data Items : Type 0 where
    nil : Items
    cons : Json → Items → Items

  pub data Members : Type 0 where
    end : Members
    member : Text → Json → Members → Members

abbrev pub Fields : Type 0
Fields = List (Text × Json)

abbrev pub members : Fields → Members
members [] = end
members ((k, v) ∷ fs) = member k v (members fs)

unfoldable pub object : Fields → Json
object fs = obj (members fs)

-- The fields of a struct, by type; the forms with `omitempty` leave an empty value out. A slice
-- with no element comes from a nil slice, which is written null.
unfoldable pub text : Text → Text → Fields
text k s = (k, str s) ∷ []

unfoldable pub text_omitempty : Text → Text → Fields
text_omitempty k [] = []
text_omitempty k (c ∷ s) = (k, str (c ∷ s)) ∷ []

abbrev pub slice : Items → Json
slice nil = null
slice (cons v vs) = arr (cons v vs)

unfoldable pub items : Text → Items → Fields
items k vs = (k, slice vs) ∷ []

unfoldable pub items_omitempty : Text → Items → Fields
items_omitempty k nil = []
items_omitempty k (cons v vs) = (k, arr (cons v vs)) ∷ []

module _ {A : Type 0} where
  unfoldable pub map_items : (A → Json) → List A → Items
  map_items f [] = nil
  map_items f (a ∷ as') = cons (f a) (map_items f as')

  unfoldable pub list : Text → (A → Json) → List A → Fields
  unfolding items map_items
  list k f xs = items k (map_items f xs)

  unfoldable pub list_omitempty : Text → (A → Json) → List A → Fields
  unfolding items_omitempty map_items
  list_omitempty k f xs = items_omitempty k (map_items f xs)

  unfoldable pub pointer : (A → Json) → Option A → Json
  pointer f none = null
  pointer f (some a) = f a

  unfoldable pub pointer_omitempty : Text → (A → Json) → Option A → Fields
  pointer_omitempty k f none = []
  pointer_omitempty k f (some a) = (k, f a) ∷ []

unfoldable pub unicode_escape : ℕ → Text
unicode_escape c = codes "\\u00" ++ hex_digit (c / 16) ∷ hex_digit (c % 16) ∷ []

-- A byte of a string as Marshal writes it, the characters of HTML escaped. The text is taken to be
-- valid UTF-8 without U+2028 and U+2029, so that bytes from 128 on stand for themselves.
unfoldable pub escape_byte : ℕ → Text
unfolding unicode_escape
escape_byte c =
    if c == b'"'
    then codes "\\\""
    else if c == b'\\'
    then codes "\\\\"
    else if c == 10
    then codes "\\n"
    else if c == 13
    then codes "\\r"
    else if c == 9
    then codes "\\t"
    else if ltb c 32 || c == b'<' || c == b'>' || c == b'&'
    then unicode_escape c
    else c ∷ []

unfoldable pub escape : Text → Text
unfolding escape_byte
escape [] = []
escape (c ∷ s) = escape_byte c ++ escape s

unfoldable pub quote : Text → Text
unfolding escape
quote s = b'"' ∷ (escape s ++ b'"' ∷ [])

abbrev comma_unless : Bool → Text → Text
comma_unless true s = s
comma_unless false s = b',' ∷ s

-- json.Marshal, compact; the Boolean says that the element is the first of its list.
unfoldable mutual
  unfolding quote

  pub encode : Json → Text
  encode null = codes "null"
  encode (str s) = quote s
  encode (arr vs) = b'[' ∷ (encode_items true vs ++ b']' ∷ [])
  encode (obj ms) = b'{' ∷ (encode_members true ms ++ b'}' ∷ [])

  pub encode_items : Bool → Items → Text
  encode_items first nil = []
  encode_items first (cons v vs) = comma_unless first (encode v ++ encode_items false vs)

  pub encode_members : Bool → Members → Text
  encode_members first end = []
  encode_members first (member k v ms) =
      comma_unless first (quote k ++ b':' ∷ (encode v ++ encode_members false ms))

encode_test :
    encode (object (text (codes "id") (codes "a<\"") ++ text_omitempty (codes "x") []))
    ≡ codes "{\"id\":\"a\\u003c\\\"\"}"
unfolding encode object text text_omitempty
encode_test = refl

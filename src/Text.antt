-- ===== src/Text.antt =====
-- Go's strings as lists of bytes, with the functions of its packages strings and fmt that the
-- program calls. Case mapping and white space are those of ASCII, which HTTP fields are made of.
pub mod Laws
pub mod Positions
pub mod Hex
use Prim.Native.Char.{code}
use hawk_apiserver.Prelude.{
  ℕ, suc, ◌+◌, ◌-◌, String, Bool, true, false, ◌&&◌, ◌||◌, List, [], ◌∷◌, Option, none, some, leb,
  nat_beq, if◌then◌else◌, length, drop,
}

abbrev pub Text : Type 0
Text = List ℕ

-- The bytes of a literal.
abbrev pub codes : String → Text
codes String.[] = []
codes (String.◌∷◌ c s) = code c ∷ codes s

-- strings.HasPrefix
unfoldable pub has_prefix : Text → Text → Bool
has_prefix s [] = true
has_prefix [] (_ ∷ _) = false
has_prefix (c ∷ s) (d ∷ p) = nat_beq c d && has_prefix s p

-- strings.TrimPrefix
unfoldable pub trim_prefix : Text → Text → Text
trim_prefix s p = if has_prefix s p then drop (length p) s else s

-- strings.HasSuffix, for a suffix of one byte
unfoldable pub ends_with : Text → ℕ → Bool
ends_with [] b = false
ends_with (c ∷ []) b = nat_beq c b
ends_with (c ∷ d ∷ s) b = ends_with (d ∷ s) b

-- strings.HasPrefix, for a prefix of one byte
unfoldable pub begins_with : Text → ℕ → Bool
begins_with [] b = false
begins_with (c ∷ s) b = nat_beq c b

-- strings.Contains
unfoldable pub contains : Text → Text → Bool
unfolding has_prefix
contains [] t = has_prefix [] t
contains (c ∷ s) t = has_prefix (c ∷ s) t || contains s t

abbrev pub shift : Option ℕ → Option ℕ
shift none = none
shift (some i) = some (suc i)

-- strings.Index of one byte; Go's -1 is `none`
unfoldable pub index_byte : Text → ℕ → Option ℕ
index_byte [] b = none
index_byte (c ∷ s) b = if nat_beq c b then some 0 else shift (index_byte s b)

abbrev later_or : Option ℕ → Option ℕ → Option ℕ
later_or none here = here
later_or (some i) here = some (suc i)

-- strings.LastIndex of one byte
unfoldable pub last_index_byte : Text → ℕ → Option ℕ
last_index_byte [] b = none
last_index_byte (c ∷ s) b = later_or (last_index_byte s b) (if nat_beq c b then some 0 else none)

-- strings.Count of one byte
unfoldable pub count_byte : Text → ℕ → ℕ
count_byte [] b = 0
count_byte (c ∷ s) b = (if nat_beq c b then 1 else 0) + count_byte s b

abbrev pub push_head : ℕ → List Text → List Text
push_head c [] = (c ∷ []) ∷ []
push_head c (p ∷ ps) = (c ∷ p) ∷ ps

-- strings.Split by one byte; it returns at least one part
unfoldable pub split : Text → ℕ → List Text
split [] sep = [] ∷ []
split (c ∷ s) sep = if nat_beq c sep then [] ∷ split s sep else push_head c (split s sep)

unfoldable pub lower_byte : ℕ → ℕ
lower_byte c = if leb b'A' c && leb c b'Z' then c + 32 else c

unfoldable pub upper_byte : ℕ → ℕ
upper_byte c = if leb b'a' c && leb c b'z' then c - 32 else c

-- strings.ToLower
unfoldable pub to_lower : Text → Text
unfolding lower_byte
to_lower [] = []
to_lower (c ∷ s) = lower_byte c ∷ to_lower s

unfoldable pub drop_while : (ℕ → Bool) → Text → Text
drop_while p [] = []
drop_while p (c ∷ s) = if p c then drop_while p s else c ∷ s

-- The text without its last bytes that satisfy the test.
abbrev keep_end : (ℕ → Bool) → ℕ → Text → Text
keep_end p c [] = if p c then [] else c ∷ []
keep_end p c (d ∷ t) = c ∷ d ∷ t

-- The text without its last bytes that satisfy the test.
unfoldable pub drop_end_while : (ℕ → Bool) → Text → Text
drop_end_while p [] = []
drop_end_while p (c ∷ s) = keep_end p c (drop_end_while p s)

-- strings.Trim with a cutset of one byte
unfoldable pub trim : Text → ℕ → Text
unfolding drop_while drop_end_while
trim s b = drop_end_while (λ c. nat_beq c b) (drop_while (λ c. nat_beq c b) s)

-- ASCII white space: tab, line feed, vertical tab, form feed, carriage return, space
unfoldable pub is_space : ℕ → Bool
is_space c = (leb 9 c && leb c 13) || nat_beq c 32

-- strings.TrimSpace
unfoldable pub trim_space : Text → Text
unfolding drop_while drop_end_while is_space
trim_space s = drop_end_while is_space (drop_while is_space s)

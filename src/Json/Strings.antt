-- ===== src/Json/Strings.antt =====
-- Reading JSON strings, by RFC 8259 and independently of the writer: a state for each byte.
use Prim.Native.Nat.{◌/◌, ◌%◌}
use hawk_apiserver.Prelude.{
  ℕ, zero, suc, ◌+◌, ◌*◌, ◌<◌, ◌≡◌, refl, ap, inl, inr, true, false, ◌||◌, [], ◌∷◌, ◌++◌, Option,
  none, some, if◌then◌else◌, ltb, lt→ltb, arith, Bool-cases, ◌==◌, nat_eq, nat_beq_iff,
  append_assoc,
}
use hawk_apiserver.Text.{Text, codes}
use hawk_apiserver.Text.Hex.{hex_digit, hex_value, hex_value-hex_digit}
use hawk_apiserver.Json.{escape_byte, escape, unicode_escape}

-- Between characters, behind a backslash, and with some digits of \u to come.
pub data State : Type 0 where
  plain : State
  escaped : State
  digits : ℕ → ℕ → State

-- What a byte does: it ends the string, gives a byte of the text, or changes the state, or it is an
-- error.
pub data Effect : Type 0 where
  ends : Effect
  gives : ℕ → Effect
  goes : State → Effect
  wrong : Effect

-- Only \u of ASCII is read.
after_digits : ℕ → ℕ → Effect
after_digits zero v = if ltb v 128 then gives v else wrong
after_digits (suc k) v = goes (digits (suc k) v)

digit_effect : ℕ → ℕ → Option ℕ → Effect
unfolding after_digits
digit_effect k v none = wrong
digit_effect k v (some d) = after_digits k (v * 16 + d)

effect : State → ℕ → Effect
unfolding digit_effect hex_value
effect plain c =
    if c == b'"'
    then ends
    else if c == b'\\'
    then goes escaped
    else if ltb c 32
    then wrong
    else gives c
effect escaped c =
    if c == b'"' || c == b'\\' || c == b'/'
    then gives c
    else if c == b'n'
    then gives 10
    else if c == b'r'
    then gives 13
    else if c == b't'
    then gives 9
    else if c == b'b'
    then gives 8
    else if c == b'f'
    then gives 12
    else if c == b'u'
    then goes (digits 4 0)
    else wrong
effect (digits zero v) c = wrong
effect (digits (suc k) v) c = digit_effect k v (hex_value c)

abbrev push_byte : ℕ → Option (Text × Text) → Option (Text × Text)
push_byte c none = none
push_byte c (some (s, rest)) = some (c ∷ s, rest)

-- The text up to the closing quote, and what follows.
unfoldable pub read_string : State → Text → Option (Text × Text)
unfolding effect
read_string st [] = none
read_string st (c ∷ s) = elim (effect st c) [
  | ends ↦ some ([], s)
  | gives b ↦ push_byte b (read_string plain s)
  | goes st' ↦ read_string st' s
  | wrong ↦ none
]

hex_step :
    (k v d : ℕ) (s : Text)
    → d < 16
    → read_string (digits (suc (suc k)) v) (hex_digit d ∷ s)
      ≡ read_string (digits (suc k) (v * 16 + d)) s
unfolding read_string
hex_step k v d s h = rw (read_string, hex_value-hex_digit d h)

hex_last :
    (v d : ℕ) (s : Text)
    → d < 16
    → v * 16 + d < 128
    → read_string (digits 1 v) (hex_digit d ∷ s) ≡ push_byte (v * 16 + d) (read_string plain s)
unfolding read_string
hex_last v d s h small = rw (read_string, hex_value-hex_digit d h, lt→ltb (v * 16 + d) 128 small)

read_string-zeros : (s : Text) → read_string plain (codes "\\u00" ++ s) ≡ read_string (digits 2 0) s
unfolding read_string
read_string-zeros s = refl

read_string-unicode_escape :
    (c : ℕ) (t : Text)
    → c < 128
    → read_string plain (unicode_escape c ++ t) ≡ push_byte c (read_string plain t)
unfolding unicode_escape
read_string-unicode_escape c t h =
    rw
      (
        read_string-zeros (hex_digit (c / 16) ∷ hex_digit (c % 16) ∷ t),
        hex_step 0 0 (c / 16) (hex_digit (c % 16) ∷ t) (omega arith),
        hex_last (0 * 16 + c / 16) (c % 16) t (omega arith) (omega arith),
      )
      (ap (λ k. push_byte k (read_string plain t)) (omega arith))

read_string-plain :
    (c : ℕ) (t : Text)
    → (c == b'"') ≡ false
    → (c == b'\\') ≡ false
    → ltb c 32 ≡ false
    → read_string plain (c ∷ t) ≡ push_byte c (read_string plain t)
unfolding read_string
read_string-plain c t e f g = rw (read_string, e, f, g)

small : (c : ℕ) → (ltb c 32 || c == b'<' || c == b'>' || c == b'&') ≡ true → c < 128
small c e = ground arith

not_control : (c : ℕ) → (ltb c 32 || c == b'<' || c == b'>' || c == b'&') ≡ false → ltb c 32 ≡ false
not_control c e = ground arith

read_string-escape_byte :
    (c : ℕ) (t : Text) → read_string plain (escape_byte c ++ t) ≡ push_byte c (read_string plain t)
unfolding read_string escape_byte
read_string-escape_byte c t = elim (Bool-cases (c == b'"')) [
  | inl e ↦ rw ((nat_beq_iff c b'"').0 e) refl
  | inr n0 ↦ elim (Bool-cases (c == b'\\')) [
    | inl e ↦ rw ((nat_beq_iff c b'\\').0 e) refl
    | inr n1 ↦ elim (Bool-cases (c == 10)) [
      | inl e ↦ rw ((nat_beq_iff c 10).0 e) refl
      | inr n2 ↦ elim (Bool-cases (c == 13)) [
        | inl e ↦ rw ((nat_beq_iff c 13).0 e) refl
        | inr n3 ↦ elim (Bool-cases (c == 9)) [
          | inl e ↦ rw ((nat_beq_iff c 9).0 e) refl
          | inr n4 ↦ elim (Bool-cases (ltb c 32 || c == b'<' || c == b'>' || c == b'&')) [
            | inl e ↦
                rw (escape_byte, n0, n1, n2, n3, n4, e) (read_string-unicode_escape c t (small c e))
            | inr e ↦
                rw (escape_byte, n0, n1, n2, n3, n4, e)
                  (read_string-plain c t n0 n1 (not_control c e))
          ]
        ]
      ]
    ]
  ]
]

pub read_string-escape : (s t : Text) → read_string plain (escape s ++ b'"' ∷ t) ≡ some (s, t)
unfolding escape read_string
read_string-escape [] t = refl
read_string-escape (c ∷ s) t =
    rw (append_assoc, read_string-escape_byte c (escape s ++ b'"' ∷ t), read_string-escape s t)

-- ===== src/Text/Hex.antt =====
-- Hexadecimal digits in lower case.
use Prim.Native.Nat.{◌/◌, ◌%◌}
use hawk_apiserver.Prelude.{
  ◌++◌, ℕ, zero, suc, ◌+◌, ◌*◌, ◌-◌, ◌<◌, ◌≤◌, ◌≡◌, refl, ap, ltb→lt, inl, inr, ◌&&◌, [], ◌∷◌,
  Option, none, some, if◌then◌else◌, ltb, leb, arith, Bool-cases,
}
use hawk_apiserver.Text.{Text}

abbrev pub hex_digit : ℕ → ℕ
hex_digit n = if ltb n 10 then b'0' + n else 87 + n

-- `%x`; a number of n has at most n + 1 digits
unfoldable pub hex_from : ℕ → ℕ → Text → Text
hex_from zero n s = s
hex_from (suc f) n s =
    let longer = hex_from f (n / 16) (hex_digit (n % 16) ∷ s) in
    if ltb n 16 then hex_digit n ∷ s else longer

-- The value of a digit.
unfoldable pub hex_value : ℕ → Option ℕ
hex_value c =
    if leb b'0' c && leb c b'9'
    then some (c - b'0')
    else if leb b'a' c && leb c b'f'
    then some (c - 87)
    else none

pub hex_value-hex_digit : (d : ℕ) → d < 16 → hex_value (hex_digit d) ≡ some d
unfolding hex_value
hex_value-hex_digit d h = ground arith

-- A number's value from its digits, up to the first byte that is no digit.
unfoldable pub read_hex : ℕ → Text → ℕ × Text
unfolding hex_value
read_hex acc [] = (acc, [])
read_hex acc (c ∷ s) = elim (hex_value c) [
  | some d ↦ read_hex (acc * 16 + d) s
  | none ↦ (acc, c ∷ s)
]

read_hex-digit :
    (acc d : ℕ) (s : Text) → d < 16 → read_hex acc (hex_digit d ∷ s) ≡ read_hex (acc * 16 + d) s
unfolding read_hex
read_hex-digit acc d s h = rw (read_hex, hex_value-hex_digit d h)

-- The fuel is enough if it is more than the number.
pub read_hex-hex_from : (f n : ℕ) (s : Text) → n < f → read_hex 0 (hex_from f n s) ≡ read_hex n s
unfolding hex_from
read_hex-hex_from zero n s h = absurd (omega arith)
read_hex-hex_from (suc f) n s h = elim (Bool-cases (ltb n 16)) [
  | inl e ↦ rw (e, read_hex-digit 0 n s (ltb→lt n 16 e)) (ap (λ k. read_hex k s) (omega arith))
  | inr e ↦
      let big : 16 ≤ n = ground arith in
      rw
        (
          e,
          read_hex-hex_from f (n / 16) (hex_digit (n % 16) ∷ s) (omega arith),
          read_hex-digit (n / 16) (n % 16) s (omega arith),
        )
        (ap (λ k. read_hex k s) (omega arith))
]

pub hex_from-append : (f n : ℕ) (s t : Text) → hex_from f n (s ++ t) ≡ hex_from f n s ++ t
unfolding hex_from
hex_from-append zero n s t = refl
hex_from-append (suc f) n s t = elim (Bool-cases (ltb n 16)) [
  | inl e ↦ rw e
  | inr e ↦ rw (e, hex_from-append f (n / 16) (hex_digit (n % 16) ∷ s) t)
]

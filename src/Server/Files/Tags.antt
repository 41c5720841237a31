-- ===== src/Server/Files/Tags.antt =====
-- What an entity tag tells of a file: its time of modification and its size.
use hawk_apiserver.Prelude.{ℕ, suc, ◌≡◌, refl, sym, ap, ◌∙◌, [], ◌∷◌, ◌++◌, none, arith, drop}
use hawk_apiserver.Text.{Text}
use hawk_apiserver.Text.Hex.{hex_from, read_hex, read_hex-hex_from, hex_from-append, hex_value}
use hawk_apiserver.Server.Env.{FileInfo}
use hawk_apiserver.Server.Files.{etag}

abbrev second_number : ℕ × Text → ℕ
second_number (n, []) = 0
second_number (n, c ∷ s) = (read_hex 0 s).0

-- The two numbers in a tag.
pub read_etag : Text → ℕ × ℕ
read_etag t = ((read_hex 0 (drop 3 t)).0, second_number (read_hex 0 (drop 3 t)))

read_hex-all :
    (n c : ℕ) (s : Text)
    → hex_value c ≡ none
    → read_hex 0 (hex_from (suc n) n [] ++ c ∷ s) ≡ (n, c ∷ s)
unfolding read_hex
read_hex-all n c s e = rw (
  sym (hex_from-append (suc n) n [] (c ∷ s)),
  read_hex-hex_from (suc n) n (c ∷ s) (omega arith),
  read_hex,
  e,
)

read_etag-etag : (i : FileInfo) → read_etag (etag i) ≡ (i.mod_time, i.size)
unfolding read_etag etag hex_value
read_etag-etag i = rw (
  read_hex-all i.mod_time b'-' (hex_from (suc i.size) i.size [] ++ b'"' ∷ []) refl,
  second_number,
  read_hex-all i.size b'"' [] refl,
)

-- Two files with one entity tag have the same time of modification, in seconds, and the same size.
pub etag_Injective :
    (a b : FileInfo) → etag a ≡ etag b → (a.mod_time ≡ b.mod_time) × (a.size ≡ b.size)
etag_Injective a b e =
    let same = sym (read_etag-etag a) ∙ ap read_etag e ∙ read_etag-etag b in
    (ap (λ p. p.0) same, ap (λ p. p.1) same)

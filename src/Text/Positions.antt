-- ===== src/Text/Positions.antt =====
-- Positions of a byte in a text.
use hawk_apiserver.Prelude.{
  ℕ, zero, suc, ◌+◌, ◌≤◌, ◌≡◌, refl, List, [], ◌∷◌, ◌++◌, none, some, length, take, arith,
}
use hawk_apiserver.Text.{Text, index_byte, last_index_byte}
use hawk_apiserver.Text.Laws.{Lacks}
use native.Mathlib.Nat.{zero-add, suc-add}

pub last_index_byte_of_Lacks : (b : ℕ) (s : Text) → Lacks b s → last_index_byte s b ≡ none
unfolding last_index_byte
last_index_byte_of_Lacks b [] h = refl
last_index_byte_of_Lacks b (c ∷ s) (h, hs) = rw (last_index_byte_of_Lacks b s hs) (ground arith)

pub last_index_byte-append :
    (b : ℕ) (q s : Text) → Lacks b s → last_index_byte (q ++ b ∷ s) b ≡ some (length q)
unfolding last_index_byte
last_index_byte-append b [] s h = rw (last_index_byte_of_Lacks b s h) (ground arith)
last_index_byte-append b (c ∷ q) s h = rw (last_index_byte-append b q s h)

pub index_byte_of_Lacks : (b : ℕ) (s : Text) → Lacks b s → index_byte s b ≡ none
unfolding index_byte
index_byte_of_Lacks b [] h = refl
index_byte_of_Lacks b (c ∷ s) (h, hs) = ground (arith, index_byte_of_Lacks b s hs)

pub index_byte-append :
    (b : ℕ) (s t : Text) → Lacks b s → index_byte (s ++ b ∷ t) b ≡ some (length s)
unfolding index_byte
index_byte-append b [] t h = ground arith
index_byte-append b (c ∷ s) t (h, hs) = ground (arith, index_byte-append b s t hs)

pub take-append_add {ℓ} :
    {A : Type ℓ} (xs ys : List A) (n : ℕ) → take (length xs + n) (xs ++ ys) ≡ xs ++ take n ys
take-append_add [] ys n = rw zero-add
take-append_add (x ∷ xs) ys n = rw suc-add (rw (take-append_add xs ys n))

pub take-append_le {ℓ} :
    {A : Type ℓ} (n : ℕ) (xs ys : List A) → n ≤ length xs → take n (xs ++ ys) ≡ take n xs
take-append_le zero xs ys h = refl
take-append_le (suc n) [] ys h = absurd (omega arith)
take-append_le (suc n) (x ∷ xs) ys h = rw (take-append_le n xs ys (omega arith))

pub Lacks-take : (b n : ℕ) (s : Text) → Lacks b s → Lacks b (take n s)
Lacks-take b zero s h = tt
Lacks-take b (suc n) [] h = tt
Lacks-take b (suc n) (c ∷ s) (h, hs) = (h, Lacks-take b n s hs)

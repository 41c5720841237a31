-- ===== src/Text/Laws.antt =====
-- Laws of splitting and trimming at a byte.
use hawk_apiserver.Prelude.{
  ℕ, ◌≡◌, refl, ◌≢◌, ◌⊎◌, inl, inr, Bool, false, [], ◌∷◌, ◌++◌, nat_beq, arith, All, Bool-cases,
}
use hawk_apiserver.Text.{Text, split, drop_end_while, keep_end}

-- A text in which a byte does not occur.
abbrev pub Lacks : ℕ → Text → Type 0
Lacks b s = All (λ c. c ≢ b) s

pub split-append_sep :
    (s t : Text) (sep : ℕ) → Lacks sep s → split (s ++ sep ∷ t) sep ≡ s ∷ split t sep
unfolding split
split-append_sep [] t sep h = ground arith
split-append_sep (c ∷ s) t sep (h, hs) = ground (arith, split-append_sep s t sep hs)

pub split_of_Lacks : (s : Text) (sep : ℕ) → Lacks sep s → split s sep ≡ s ∷ []
unfolding split
split_of_Lacks [] sep h = refl
split_of_Lacks (c ∷ s) sep (h, hs) = ground (arith, split_of_Lacks s sep hs)

keep_end_of_false : (p : ℕ → Bool) (c : ℕ) (s : Text) → p c ≡ false → keep_end p c s ≡ c ∷ s
keep_end_of_false p c [] e = rw e
keep_end_of_false p c (_ ∷ _) e = refl

pub drop_end_while-append :
    (p : ℕ → Bool) (s t : Text)
    → All (λ c. p c ≡ false) s
    → drop_end_while p (s ++ t) ≡ s ++ drop_end_while p t
unfolding drop_end_while
drop_end_while-append p [] t h = refl
drop_end_while-append p (c ∷ s) t (h, hs) =
    rw (drop_end_while-append p s t hs) (keep_end_of_false p c _ h)

pub Lacks-false : (b : ℕ) (s : Text) → Lacks b s → All (λ c. nat_beq c b ≡ false) s
Lacks-false b [] h = tt
Lacks-false b (c ∷ s) (h, hs) = (ground arith, Lacks-false b s hs)

-- The empty text, or one that begins with the byte.
abbrev pub IsTail : ℕ → Text → Type 0
IsTail b t = (t ≡ []) ⊎ ((u : Text) × (t ≡ b ∷ u))

drop_end_while-cons : (p : ℕ → Bool) (b : ℕ) (u : Text) → IsTail b (keep_end p b u)
drop_end_while-cons p b [] = elim (Bool-cases (p b)) [ inl e ↦ inl (rw e) | inr e ↦ inr ([], rw e) ]
drop_end_while-cons p b (d ∷ u) = inr (d ∷ u, refl)

-- Trimming at the end keeps that shape.
pub drop_end_while-IsTail :
    (p : ℕ → Bool) (b : ℕ) (t : Text) → IsTail b t → IsTail b (drop_end_while p t)
unfolding drop_end_while
drop_end_while-IsTail p b t (inl e) = inl (rw e)
drop_end_while-IsTail p b t (inr (u, e)) = rw e (drop_end_while-cons p b (drop_end_while p u))

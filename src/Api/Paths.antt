-- ===== src/Api/Paths.antt =====
-- What the path of a request stands for when the API is served below /api/v1, as it is by default.
use hawk_apiserver.Prelude.{ℕ, ◌≡◌, inl, inr, List, [], ◌∷◌, ◌++◌, append-nil, Bool, nat_beq}
use hawk_apiserver.Text.{Text, codes, split, trim, drop_while, drop_end_while}
use hawk_apiserver.Text.Laws.{
  Lacks, IsTail, split-append_sep, split_of_Lacks, drop_end_while-append, drop_end_while-IsTail,
  Lacks-false,
}
use hawk_apiserver.Api.Url.{url_list}

abbrev slash : ℕ
slash = b'/'

split_head :
    (s t : Text)
    → Lacks slash s
    → IsTail slash t
    → (ps : List Text) × (split (s ++ t) slash ≡ s ∷ ps)
split_head s t h (inl e) = ([], rw (e, append-nil) (split_of_Lacks s slash h))
split_head s t h (inr (u, e)) = (split u slash, rw e (split-append_sep s u slash h))

-- Below /api/v1/configuration the fourth part of the path is the section's own name.
pub url_list-section :
    (c : ℕ) (s t : Text)
    → Lacks slash (c ∷ s)
    → IsTail slash t
    → (ps : List Text) × (url_list (codes "/api/v1/configuration/" ++ c ∷ (s ++ t))
        ≡ codes "api" ∷ codes "v1" ∷ codes "configuration" ∷ (c ∷ s) ∷ ps)
unfolding url_list trim drop_while drop_end_while split
url_list-section c s t h k =
    let is_slash : ℕ → Bool = λ b. nat_beq b slash in
    let (ps, e) =
      split_head (c ∷ s) (drop_end_while is_slash t) h (drop_end_while-IsTail is_slash slash t k) in
    let trimmed = drop_end_while-append is_slash (c ∷ s) t (Lacks-false slash (c ∷ s) h) in
    (ps, rw (trimmed, e))

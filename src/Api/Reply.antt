-- ===== src/Api/Reply.antt =====
-- The answers of the configuration API, described independently of the code: what a section's URL
-- stands for, and the response made of it.
use hawk_apiserver.Prelude.{
  suc, nat_beq, length, ◌≡◌, arith, Bool, true, false, List, ◌∷◌, [], ◌++◌, Option, none, some,
}
use hawk_apiserver.Text.{Text, codes}
use hawk_apiserver.Outcome.{Outcome, done, panic}
use hawk_apiserver.Json.{Json, encode}
use hawk_apiserver.Http.{ResponseWriter, set_header, http_error, write_string}
use hawk_apiserver.Api.Url.{no_route}

-- Three parts stand for the whole section, and of more the fourth names an item. With fewer the
-- handler panics.
abbrev pub by_url : Json → (Text → Option Json) → List Text → Outcome (Option Json)
by_url all one [] = panic
by_url all one (_ ∷ []) = panic
by_url all one (_ ∷ _ ∷ []) = panic
by_url all one (_ ∷ _ ∷ _ ∷ []) = done (some all)
by_url all one (_ ∷ _ ∷ _ ∷ key ∷ _) = done (one key)

-- More than three parts are not three.
pub not-three {ℓ} :
    {A : Type ℓ} (xs : List A) → nat_beq (suc (suc (suc (suc (length xs))))) 3 ≡ false
not-three xs = ground arith

module _ {W : Type 0} ⦃i : ResponseWriter W⦄ where
  -- The response of type JSON that a handler continues with.
  abbrev pub as_json : W → W
  as_json w = set_header (codes "Content-Type") (codes "application/json") w

  -- A document and a line feed, or an error that lets the router try its further routes.
  abbrev pub respond : Text → W → Option Json → Outcome (W × Bool)
  respond path w none = done (http_error (no_route path) 500 w, false)
  respond path w (some json) = done (write_string (encode json ++ codes "\n") w, true)

-- ===== src/Proxy/Joining.antt =====
-- How the paths of the target and of the request are joined.
use hawk_apiserver.Prelude.{
  ◌≡◌, ◌≢◌, refl, sym, true, false, [], ◌∷◌, ◌++◌, append_assoc, arith, text_eq, text_beq,
  text_beq_iff,
}
use hawk_apiserver.Text.{Text, ends_with, begins_with}
use hawk_apiserver.Proxy.Director.{single_joining_slash}

abbrev pub slash : Text
slash = b'/' ∷ []

ends_with-append : (a : Text) → ends_with (a ++ slash) b'/' ≡ true
unfolding ends_with
ends_with-append [] = refl
ends_with-append (c ∷ []) = refl
ends_with-append (c ∷ d ∷ a) = ends_with-append (d ∷ a)

-- A path without a slash at its end and one that is not empty and has none at its start are joined
-- by one slash, and so they are if the first, the second or both have one more slash there.
pub single_joining_slash_lem :
    (a b : Text)
    → ends_with a b'/' ≡ false
    → begins_with b b'/' ≡ false
    → b ≢ []
    → (single_joining_slash a b ≡ a ++ slash ++ b)
      × (single_joining_slash (a ++ slash) b ≡ a ++ slash ++ b)
      × (single_joining_slash a (slash ++ b) ≡ a ++ slash ++ b)
      × (single_joining_slash (a ++ slash) (slash ++ b) ≡ a ++ slash ++ b)
unfolding single_joining_slash begins_with
single_joining_slash_lem a b e s n = (
  rw (single_joining_slash, e, s, filled) (sym (append_assoc a slash b)),
  rw (single_joining_slash, ends_with-append a, s) refl,
  rw (single_joining_slash, e) (sym (append_assoc a slash b)),
  rw (single_joining_slash, ends_with-append a) refl,
)
  where
    filled : text_beq b [] ≡ false
    filled = ground (arith, text_beq_iff b [])

-- ===== src/Auth.antt =====
-- util.go: checkHawkAuthMethods and checkBasicAuth. The two programs that they run are parameters:
-- `attrd_updater name` holds the lines that `attrd_updater -R -Q -A -n name` prints, and
-- `hawk_chkpwd user pass` says whether `hawk_chkpwd passwd user` exits with success on `pass`.
pub mod Laws
use hawk_apiserver.Prelude.{
  Bool, true, false, not, ◌&&◌, ◌||◌, List, [], ◌∷◌, ◌++◌, Option, none, some, ◌==◌, text_eq,
  if◌then◌else◌,
}
use hawk_apiserver.Text.{Text, codes, contains}
use hawk_apiserver.Http.{Request}

-- The value of the last cookie of that name, starting from the value of the variable.
unfoldable pub last_cookie : Text → Text → List (Text × Text) → Text
last_cookie name value [] = value
last_cookie name value ((n, v) ∷ cs) = last_cookie name (if n == name then v else value) cs

-- The loop over the output of attrd_updater.
unfoldable pub scan : Text → List Text → Bool
scan tomatch [] = false
scan tomatch (l ∷ ls) = contains l tomatch || scan tomatch ls

module _ (attrd_updater : Text → List Text) (hawk_chkpwd : Text → Text → Bool) where
  unfoldable pub session_ok : Text → Text → Bool
  unfolding scan
  session_ok user session =
      not (user == [])
      && not (session == [])
      && scan (codes "value=\"" ++ session ++ codes "\"")
          (attrd_updater (codes "hawk_session_" ++ user))

  unfoldable pub check_basic_auth : Text → Text → Bool
  check_basic_auth user pass = hawk_chkpwd user pass

  unfoldable pub basic_ok : Option (Text × Text) → Bool
  unfolding check_basic_auth
  basic_ok none = false
  basic_ok (some (user, pass)) = if not (check_basic_auth user pass) then false else true

  unfoldable pub check_hawk_auth_methods : Request → Bool
  unfolding last_cookie session_ok basic_ok
  check_hawk_auth_methods r =
      let user = last_cookie (codes "hawk_remember_me_id") [] r.cookies in
      let session = last_cookie (codes "hawk_remember_me_key") [] r.cookies in
      if session_ok user session then true else basic_ok r.basic_auth

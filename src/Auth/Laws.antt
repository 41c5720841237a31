-- ===== src/Auth/Laws.antt =====
-- When a request is authorised.
use hawk_apiserver.Prelude.{
  ◌≡◌, refl, ◌≢◌, ◌⊎◌, ◌↔◌, inl, inr, Bool, true, List, [], ◌∷◌, ◌++◌, Option, none, some, text_eq,
  text_beq_iff, arith, Bool-cases,
}
use hawk_apiserver.Text.{Text, codes, contains}
use hawk_apiserver.Http.{Request}
use hawk_apiserver.Auth.{last_cookie, scan, session_ok, basic_ok, check_hawk_auth_methods}

-- Some line holds the text.
abbrev pub AnyHolds : Text → List Text → Type 0
AnyHolds t [] = ⊥
AnyHolds t (l ∷ ls) = (contains l t ≡ true) ⊎ AnyHolds t ls

scan_iff : (t : Text) (ls : List Text) → (scan t ls ≡ true) ↔ AnyHolds t ls
unfolding scan
scan_iff t [] = ground arith
scan_iff t (l ∷ ls) = ground (arith, scan_iff t ls)

module _ (attrd_updater : Text → List Text) (hawk_chkpwd : Text → Text → Bool) where
  -- A user and a session, both not empty, of which attrd knows.
  abbrev pub HasSession : Text → Text → Type 0
  HasSession user session =
      (user ≢ [])
      × (session ≢ [])
      × AnyHolds (codes "value=\"" ++ session ++ codes "\"")
          (attrd_updater (codes "hawk_session_" ++ user))

  -- Credentials that hawk_chkpwd accepts.
  abbrev pub HasPassword : Option (Text × Text) → Type 0
  HasPassword auth =
      (user : Text) × (pass : Text) × (auth ≡ some (user, pass)) × (hawk_chkpwd user pass ≡ true)

  session_ok_iff :
      (user session : Text)
      → (session_ok attrd_updater hawk_chkpwd user session ≡ true) ↔ HasSession user session
  unfolding session_ok
  session_ok_iff user session = ground (
    arith,
    text_beq_iff user [],
    text_beq_iff session [],
    scan_iff (codes "value=\"" ++ session ++ codes "\"")
        (attrd_updater (codes "hawk_session_" ++ user)),
  )

  basic_ok_sound :
      (auth : Option (Text × Text))
      → basic_ok attrd_updater hawk_chkpwd auth ≡ true
      → HasPassword auth
  unfolding basic_ok
  basic_ok_sound none e = absurd (cc)
  basic_ok_sound (some (user, pass)) e = (user, pass, refl, ground arith)

  basic_ok_complete :
      (auth : Option (Text × Text))
      → HasPassword auth
      → basic_ok attrd_updater hawk_chkpwd auth ≡ true
  unfolding basic_ok
  basic_ok_complete auth (user, pass, e, ok) = rw (e, ok)

  -- A request is authorised exactly when the last cookies with the two names hold a user and a
  -- session that attrd knows, or its basic authentication holds a password that is accepted.
  pub check_hawk_auth_methods_iff :
      (r : Request)
      → (check_hawk_auth_methods attrd_updater hawk_chkpwd r ≡ true) ↔ (
          HasSession
            (last_cookie (codes "hawk_remember_me_id") [] r.cookies)
            (last_cookie (codes "hawk_remember_me_key") [] r.cookies)
          ⊎ HasPassword r.basic_auth)
  unfolding check_hawk_auth_methods
  check_hawk_auth_methods_iff r = (to, from)
    where
      user : Text
      user = last_cookie (codes "hawk_remember_me_id") [] r.cookies

      session : Text
      session = last_cookie (codes "hawk_remember_me_key") [] r.cookies

      to :
          check_hawk_auth_methods attrd_updater hawk_chkpwd r ≡ true
          → HasSession user session ⊎ HasPassword r.basic_auth
      to e = elim (Bool-cases (session_ok attrd_updater hawk_chkpwd user session)) [
        | inl known ↦ inl ((session_ok_iff user session).0 known)
        | inr unknown ↦
            inr (basic_ok_sound r.basic_auth (rw (unknown, check_hawk_auth_methods) at e))
      ]

      from :
          HasSession user session ⊎ HasPassword r.basic_auth
          → check_hawk_auth_methods attrd_updater hawk_chkpwd r ≡ true
      from (inl known) = rw ((session_ok_iff user session).1 known)
      from (inr accepted) = ground (arith, basic_ok_complete r.basic_auth accepted)

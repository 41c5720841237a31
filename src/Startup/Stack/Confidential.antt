-- ===== src/Startup/Stack/Confidential.antt =====
-- What an unauthorised client of the whole server learns of the CIB.
use hawk_apiserver.Prelude.{
  ◌≡◌, refl, sym, ◌∙◌, inl, inr, true, false, Option, none, some, Bool-cases, ℕ,
}
use hawk_apiserver.Text.{Text}
use hawk_apiserver.Outcome.{Outcome, done, panic}
use hawk_apiserver.Auth.{check_hawk_auth_methods}
use hawk_apiserver.Http.{ResponseWriter, Request, Url}
use hawk_apiserver.Server.Env.{Env, RouteHandler}
use hawk_apiserver.Server.Routes.{serve_http}
use hawk_apiserver.Server.Routes.Confidential.{with_doc, map_handler, serve_http_confidential}
use hawk_apiserver.Gzip.Encodings.{Floats, accepts_gzip}
use hawk_apiserver.Gzip.Writer.{Compressor}
use hawk_apiserver.Gzip.Handler.{new_gzip_handler}
use hawk_apiserver.Startup.{serve_conn}
use hawk_apiserver.Startup.Plain.{passed, serve_conn_lem}
use hawk_apiserver.Startup.Stack.{written, routes, stack}

module _ (env : (V : Type 0) → ResponseWriter V → Env V)
    (aborted : (V : Type 0) → V → Request → V) where
  -- Neither a session nor a password of the request is accepted.
  abbrev pub Denied : Request → Type 1
  Denied r =
      (V : Type 0) (i : ResponseWriter V)
      → check_hawk_auth_methods (env V i).attrd_updater (env V i).hawk_chkpwd r ≡ false

  written-map_handler :
      (V : Type 0) (w : V) (r : Request) (f : RouteHandler → RouteHandler)
      (o : Outcome (V × RouteHandler))
      → written env aborted V w r (map_handler f o) ≡ written env aborted V w r o
  written-map_handler V w r f (done (w', h)) = refl
  written-map_handler V w r f panic = refl

  routes_confidential :
      (doc : Text) (h : RouteHandler) (r : Request)
      → Denied r
      → (V : Type 0) (i : ResponseWriter V) (w : V)
      → routes env aborted (with_doc doc h) V i w r ≡ routes env aborted h V i w r
  unfolding routes
  routes_confidential doc h r d V i' w =
      let instance i = i' in
      rw (serve_http_confidential (env V i') doc r (d V i') h w)
        (written-map_handler V w r (with_doc doc) (serve_http (env V i') h w r))

  module _ (fl : Floats) (z : Compressor) (detect : Text → Text) where
    stack_confidential :
        (doc : Text) (h : RouteHandler) (r : Request)
        → Denied r
        → (V : Type 0) (i : ResponseWriter V) (w : V)
        → stack env aborted fl z detect (with_doc doc h) V i w r
          ≡ stack env aborted fl z detect h V i w r
    unfolding stack new_gzip_handler
    stack_confidential doc h r d V i' w = elim (Bool-cases (accepts_gzip fl r)) [
      | inl e ↦ rw (e, routes_confidential doc h r d _ _ _)
      | inr e ↦ rw (e, routes_confidential doc h r d _ _ _)
    ]

    module _ {W : Type 0} (i : ResponseWriter W) (url_string : Url → Text)
        (redirect : W → Request → Text → ℕ → W)
        (read_request read_tls_request : Text → Option Request) where
      -- The server on a connection.
      abbrev pub served : RouteHandler → Text → W → W
      served h s w =
          serve_conn url_string redirect read_request read_tls_request
            (λ w r. stack env aborted fl z detect h W i w r) s w

      passed-with_doc :
          (doc : Text) (h : RouteHandler) (o : Option Request) (w : W)
          → ((r : Request) → o ≡ some r → Denied (record r { tls = true }))
          → passed url_string redirect read_request read_tls_request
              (λ w r. stack env aborted fl z detect (with_doc doc h) W i w r)
              o
              w
            ≡ passed url_string redirect read_request read_tls_request
                (λ w r. stack env aborted fl z detect h W i w r)
                o
                w
      passed-with_doc doc h none w d = refl
      passed-with_doc doc h (some r) w d =
          stack_confidential doc h (record r { tls = true }) (d r refl) W i w

      -- If the request that TLS reads from a connection, where it reads one, is not authorised, the
      -- whole server, listener, redirection, gzip and routes, answers the connection the same
      -- whatever document it holds: also one without TLS, whatever it asks for.
      pub serve_conn_confidential :
          (doc : Text) (h : RouteHandler) (s : Text) (w : W)
          → ((r : Request) → read_tls_request s ≡ some r → Denied (record r { tls = true }))
          → served (with_doc doc h) s w ≡ served h s w
      serve_conn_confidential doc h s w d =
          elim (serve_conn_lem url_string redirect read_request read_tls_request
            (λ w r. stack env aborted fl z detect (with_doc doc h) W i w r) s w) [
              | inl (p, e) ↦
                  elim (serve_conn_lem url_string redirect read_request read_tls_request
                    (λ w r. stack env aborted fl z detect h W i w r) s w) [
                      | inl (_, e') ↦ e ∙ sym e'
                      | inr (n, _) ↦ absurd (n p)
                    ]
              | inr (n, e) ↦
                  elim (serve_conn_lem url_string redirect read_request read_tls_request
                    (λ w r. stack env aborted fl z detect h W i w r) s w) [
                      | inl (p, _) ↦ absurd (n p)
                      | inr (_, e') ↦ e ∙ (passed-with_doc doc h (read_tls_request s) w d ∙ sym e')
                    ]
            ]

-- ===== src/Tests/Stacking.antt =====
-- The whole server on a TLS connection that carries a request without a password.
use hawk_apiserver.Prelude.{◌≡◌, refl, true, [], ◌∷◌, Option, none, some, subst, text_beq}
use hawk_apiserver.Text.{Text, codes}
use hawk_apiserver.Http.{Request, response_writer, ResponseWriter}
use hawk_apiserver.Auth.{check_hawk_auth_methods}
use hawk_apiserver.Server.Env.{Env, RouteHandler}
use hawk_apiserver.Server.Routes.Confidential.{with_doc}
use hawk_apiserver.Startup.Stack.Confidential.{Denied, served, serve_conn_confidential}
use hawk_apiserver.Tests.Gzipping.{storing, plain_type}
use hawk_apiserver.Tests.Delivering.{in_tenths}
use hawk_apiserver.Tests.Listening.{url_path, redirect_to}
use hawk_apiserver.Tests.Samples.{get_at, fresh, env_for, api_route, handler_with}

abbrev same_env : (V : Type 0) → ResponseWriter V → Env V
same_env V i = env_for V none

abbrev dropped : (V : Type 0) → V → Request → V
dropped V w r = w

abbrev cib_request : Request
cib_request = get_at (codes "/api/configuration/nodes")

abbrev asks_cib : Text → Option Request
asks_cib _ = some cib_request

abbrev guarded : RouteHandler
guarded = handler_with (api_route ∷ [])

abbrev hello : Text
hello = 0x16 ∷ 3 ∷ 1 ∷ 0 ∷ 1 ∷ 1 ∷ []

cib_request-Denied : Denied same_env dropped cib_request
unfolding check_hawk_auth_methods text_beq
cib_request-Denied V i = refl

some_inj : {a b : Request} → some a ≡ some b → a ≡ b
some_inj e = cc

serve_conn_confidential_example :
    served same_env dropped in_tenths storing plain_type response_writer url_path redirect_to
      asks_cib asks_cib
      (with_doc (codes "secret") guarded)
      hello
      fresh
    ≡ served same_env dropped in_tenths storing plain_type response_writer url_path redirect_to
        asks_cib asks_cib guarded hello fresh
serve_conn_confidential_example =
    serve_conn_confidential same_env dropped in_tenths storing plain_type response_writer url_path
      redirect_to asks_cib asks_cib (codes "secret") guarded hello fresh
      (λ r e.
        subst (λ q. Denied same_env dropped (record q { tls = true })) (some_inj e)
          cib_request-Denied)

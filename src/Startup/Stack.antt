-- ===== src/Startup/Stack.antt =====
-- main: the handler that it gives to the listener, the routes below the gzip middleware. What the
-- handlers call outside of the program works on any writer, and the state that a request leaves
-- behind is for the next one. Of a handler that panics net/http drops the connection; `aborted` is
-- what that leaves of the writer.
pub mod Confidential
use hawk_apiserver.Text.{Text}
use hawk_apiserver.Outcome.{Outcome, done, panic}
use hawk_apiserver.Http.{ResponseWriter, Request}
use hawk_apiserver.Server.Env.{Env, RouteHandler}
use hawk_apiserver.Server.Routes.{serve_http}
use hawk_apiserver.Gzip.Encodings.{Floats}
use hawk_apiserver.Gzip.Writer.{Compressor}
use hawk_apiserver.Gzip.Handler.{Handler, new_gzip_handler}

module _ (env : (V : Type 0) → ResponseWriter V → Env V)
    (aborted : (V : Type 0) → V → Request → V) where
  abbrev pub written : (V : Type 0) → V → Request → Outcome (V × RouteHandler) → V
  written V w r (done (w', h)) = w'
  written V w r panic = aborted V w r

  -- The routes as an http.Handler.
  unfoldable pub routes : RouteHandler → Handler
  unfolding serve_http
  routes h V i' w r = let instance i = i' in written V w r (serve_http (env V i') h w r)

  module _ (fl : Floats) (z : Compressor) (detect : Text → Text) where
    -- `NewGzipHandler(routehandler)`
    unfoldable pub stack : RouteHandler → Handler
    unfolding routes new_gzip_handler
    stack h = new_gzip_handler fl z detect (routes h)

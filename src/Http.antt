-- ===== src/Http.antt =====
-- The parts of Go's net/http and net/url that the program uses: headers, requests and the
-- interface http.ResponseWriter. What net/http parses from a request's headers before a handler
-- asks for it (cookies, basic authentication) is a field of the request.
mod Fields
mod Writer
pub mod Laws
unfoldable pub use Fields.*
unfoldable pub use Writer.*
use hawk_apiserver.Prelude.{Option, List, Bool}
use hawk_apiserver.Text.{Text}

pub record Url : Type 0 where
  pub scheme : Text
  pub opaque : Text
  pub user : Option Text
  pub host : Text
  pub path : Text
  pub raw_path : Text
  pub raw_query : Text
  pub fragment : Text

pub record Request : Type 0 where
  pub method : Text
  pub url : Url
  pub host : Text
  pub header : Header
  -- `r.TLS != nil`
  pub tls : Bool
  pub cookies : List (Text × Text)
  pub basic_auth : Option (Text × Text)

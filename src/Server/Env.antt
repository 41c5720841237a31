-- ===== src/Server/Env.antt =====
-- The configuration, and what the handlers call outside of the program: encoding/xml, regexp,
-- net/url, path, the file system, net/http's ServeFile, the two authentication programs, the
-- network behind the proxy, and the other threads that a Wait depends on.
use hawk_apiserver.Prelude.{ℕ, Bool, List, Option}
use hawk_apiserver.Text.{Text}
use hawk_apiserver.Cib.{Cib}
use hawk_apiserver.Http.{Url, Request}
use hawk_apiserver.Proxy.Transport.{ReverseProxy}
use hawk_apiserver.Proxy.Serve.{RoundTripper, BackendResponse}
use hawk_apiserver.AsyncCib.{AsyncCib}

pub record ConfigRoute : Type 0 where
  pub handler : Text
  pub path : Text
  pub target : Option Text

pub record Config : Type 0 where
  pub listen : Text
  pub port : ℕ
  pub key : Text
  pub cert : Text
  pub log_level : Text
  pub route : List ConfigRoute

-- `proxies` is keyed by the address of a ConfigRoute; `next_address` is one that nothing has yet.
pub record RouteHandler : Type 0 where
  pub cib : AsyncCib
  pub config : Config
  pub proxies : List (ℕ × ReverseProxy)
  pub next_address : ℕ

-- The result of os.Stat: a file, an error that is os.ErrNotExist, or another error.
pub record FileInfo : Type 0 where
  pub is_dir : Bool
  pub mod_time : ℕ
  pub size : ℕ

pub data Stat : Type 0 where
  found : FileInfo → Stat
  not_exist : Stat
  denied : Stat

pub record Env (W : Type 0) : Type 0 where
  -- xml.Unmarshal into a Cib; `none` is an error
  pub unmarshal : Text → Option Cib
  -- regexp.MatchString of a pattern and a text, false on an error
  pub match_string : Text → Text → Bool
  pub attrd_updater : Text → List Text
  pub hawk_chkpwd : Text → Text → Bool
  -- url.Parse
  pub parse_url : Text → Option Url
  pub url_string : Url → Text
  pub round_trip : RoundTripper → Request → Option BackendResponse
  pub stat : Text → Stat
  -- path.Clean
  pub clean : Text → Text
  pub serve_file : Text → Request → W → W
  -- the version that another thread hands to a Wait of the request in time, if one does
  pub handed : Option Text

-- ===== src/Startup.antt =====
-- main.go: main, and redirect.go: ListenAndServeWithRedirect, from the flags to the listener, and
-- the way of a connection from there to a handler.
pub mod Ready
pub mod Plain
pub mod Stack
use hawk_apiserver.Prelude.{
  ℕ, Bool, true, false, not, List, [], ◌∷◌, ◌++◌, Option, none, some, ◌==◌, text_eq, if◌then◌else◌,
}
use hawk_apiserver.Text.{Text, codes}
use hawk_apiserver.Http.{Request, Url}
use hawk_apiserver.Server.Env.{Config}
use hawk_apiserver.Config.File.{
  Process, runs, exits, crashes, FileRead, Unmarshalled, parse_config_file,
}
use hawk_apiserver.Config.Flags.{Flags, default_config, apply_flags}
use hawk_apiserver.Redirect.{Accepted, plain, tls_server, accept, serve_http}

-- What main calls: the file system, encoding/json, fmt, logrus, crypto/tls and net. An error is
-- its message.
pub record Host : Type 1 where
  pub read_file : Text → FileRead
  pub unmarshal : Text → Config → Unmarshalled
  pub decimal : ℕ → Text
  pub Level : Type 0
  pub info : Level
  -- log.ParseLevel; `none` is an error
  pub parse_level : Text → Option Level
  -- tls.LoadX509KeyPair of a certificate and a key, its error
  pub load_key_pair : Text → Text → Option Text
  -- net.Listen on TCP, its error
  pub listen : Text → Option Text

-- The server of ListenAndServeWithRedirect when it starts to accept.
pub record Listener : Type 0 where
  pub addr : Text
  pub cert : Text
  pub key : Text
  pub next_protos : List Text

pub record Server (L : Type 0) : Type 0 where
  pub config : Config
  pub level : L
  pub listener : Listener

module _ (h : Host) where
  open h use {read_file, unmarshal, decimal, Level, info, parse_level, load_key_pair, listen}

  -- A level that does not parse is replaced.
  abbrev pub or_info : Option Level → Level
  or_info none = info
  or_info (some l) = l

  abbrev pub listening : Text → Text → Text → Option Text → Process Listener
  listening addr cert key (some e) = exits (e ∷ [])
  listening addr cert key none =
      runs (record { addr = addr; cert = cert; key = key; next_protos = codes "http1/1" ∷ [] })

  abbrev pub with_key_pair : Text → Text → Text → Option Text → Process Listener
  with_key_pair addr cert key (some e) = exits (e ∷ [])
  with_key_pair addr cert key none = listening addr cert key (listen addr)

  unfoldable pub listen_and_serve_with_redirect : Text → Text → Text → Process Listener
  listen_and_serve_with_redirect addr cert key =
      with_key_pair addr cert key (load_key_pair cert key)

  -- `fmt.Sprintf("%s:%d", config.Listen, config.Port)`
  abbrev pub address : Config → Text
  address c = c.listen ++ b':' ∷ decimal c.port

  abbrev pub started : Config → Process Listener → Process (Server Level)
  started c (exits ls) = exits ls
  started c crashes = crashes
  started c (runs l) =
      runs (record { config = c; level = or_info (parse_level c.log_level); listener = l })

  -- main behind the configuration file
  unfoldable pub start : Flags → Process Config → Process (Server Level)
  unfolding listen_and_serve_with_redirect
  start f (exits ls) = exits ls
  start f crashes = crashes
  start f (runs file) =
      let c = apply_flags f file in
      started c (listen_and_serve_with_redirect (address c) c.cert c.key)

  unfoldable pub main : Flags → Process (Server Level)
  unfolding start parse_config_file
  main f = start f (
      if not (f.config == [])
      then parse_config_file decimal read_file unmarshal f.config default_config
      else runs default_config)

-- A connection of net/http's server with one request: what the server reads from a connection as it
-- is, or below TLS, is a request or nothing. `r.TLS` is set for a connection of tls.Server alone.
module _ {W : Type 0} (url_string : Url → Text) (redirect : W → Request → Text → ℕ → W)
    (read_request read_tls_request : Text → Option Request) where
  abbrev pub handled : (W → Request → W) → Bool → Option Request → W → W
  handled handler tls none w = w
  handled handler tls (some r) w = serve_http url_string redirect handler w (record r { tls = tls })

  abbrev serve_accepted : (W → Request → W) → Accepted → W → W
  serve_accepted handler (plain s) w = handled handler false (read_request s) w
  serve_accepted handler (tls_server s) w = handled handler true (read_tls_request s) w

  unfoldable pub serve_conn : (W → Request → W) → Text → W → W
  unfolding accept serve_http
  serve_conn handler s w = serve_accepted handler (accept s) w

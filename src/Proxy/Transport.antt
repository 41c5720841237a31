-- ===== src/Proxy/Transport.antt =====
-- The transports of the proxy: socketDial, NewSingleHostReverseProxy, UseInsecureTransport and
-- cloneTLSConfig. A transport is the record of its settings; times are in milliseconds.
use hawk_apiserver.Prelude.{
  ℕ, ◌*◌, Bool, true, false, List, [], Option, none, some, ◌==◌, nat_eq, text_eq, if◌then◌else◌,
}
use hawk_apiserver.Text.{Text}
use hawk_apiserver.Http.{Url}
use hawk_apiserver.Outcome.{Outcome}
use hawk_apiserver.Proxy.Director.{is_unix, slice_from}

pub record TlsConfig : Type 0 where
  pub insecure_skip_verify : Bool
  pub server_name : Text
  pub next_protos : Option (List Text)

abbrev pub empty_tls_config : TlsConfig
empty_tls_config = record { insecure_skip_verify = false; server_name = []; next_protos = none }

-- `defaultDialer.Dial`, and what socketDial returns for a target.
pub data Dialer : Type 0 where
  default_dialer : Dialer
  socket_dial : Text → Dialer

pub record Transport : Type 0 where
  pub proxy_from_environment : Bool
  pub dial : Option Dialer
  pub tls_handshake_timeout : ℕ
  pub expect_continue_timeout : ℕ
  pub disable_keep_alives : Bool
  pub max_idle_conns_per_host : ℕ
  pub tls_client_config : Option TlsConfig

abbrev empty_transport : Transport
empty_transport = record {
  proxy_from_environment = false;
  dial = none;
  tls_handshake_timeout = 0;
  expect_continue_timeout = 0;
  disable_keep_alives = false;
  max_idle_conns_per_host = 0;
  tls_client_config = none;
}

-- `Transport == nil` is `none`. The director is the function `director target without`.
pub record ReverseProxy : Type 0 where
  pub target : Url
  pub without : Text
  pub transport : Option Transport
  pub flush_interval : ℕ

-- http.DefaultMaxIdleConnsPerHost
abbrev pub default_max_idle_conns_per_host : ℕ
default_max_idle_conns_per_host = 2

abbrev keepalive_transport : ℕ → Transport
keepalive_transport keepalive =
    let transport : Transport = record empty_transport {
      proxy_from_environment = true;
      dial = some default_dialer;
      tls_handshake_timeout = 10 * 1000;
      expect_continue_timeout = 1000;
    } in
    if keepalive == 0
    then record transport { disable_keep_alives = true }
    else record transport { max_idle_conns_per_host = keepalive }

module _ (url_string : Url → Text) where
  unfoldable pub new_single_host_reverse_proxy : Url → Text → ℕ → ReverseProxy
  new_single_host_reverse_proxy target without keepalive = record {
    target = target;
    without = without;
    flush_interval = 250;
    transport =
        if is_unix target
        then some (record empty_transport { dial = some (socket_dial (url_string target)) })
        else if keepalive == default_max_idle_conns_per_host
        then none
        else some (keepalive_transport keepalive);
  }

-- The path that the dialer of socketDial connects to.
unfoldable pub socket_path : Text → Outcome Text
unfolding slice_from
socket_path host_name = slice_from host_name 7

abbrev pub tls_config_of : Option TlsConfig → TlsConfig
tls_config_of none = empty_tls_config
tls_config_of (some c) = c

-- cloneTLSConfig: a copy, and of nil an empty configuration
unfoldable pub clone_tls_config : Option TlsConfig → TlsConfig
clone_tls_config = tls_config_of

abbrev insecure : Option TlsConfig → TlsConfig
insecure c = record (tls_config_of c) { insecure_skip_verify = true }

unfoldable pub use_insecure_transport : ReverseProxy → ReverseProxy
use_insecure_transport rp = elim rp.transport [
  | none ↦ record rp {
    transport = some (record empty_transport {
      proxy_from_environment = true;
      dial = some default_dialer;
      tls_handshake_timeout = 10 * 1000;
      tls_client_config = some (insecure none);
    });
  }
  | some t ↦ record rp {
    transport = some (record t { tls_client_config = some (insecure t.tls_client_config) });
  }
]

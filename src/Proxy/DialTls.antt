-- ===== src/Proxy/DialTls.antt =====
-- newConnHijackerTransport's settings, getTransportDial, and getTransportDialTLS with the
-- connection that it makes. A TLS configuration is an object that two transports may share, so a
-- transport holds a reference, and the two objects that a reference can mean are the state.
pub mod Closing
use hawk_apiserver.Prelude.{
  ℕ, ◌*◌, Bool, true, false, not, ◌&&◌, List, [], ◌∷◌, Option, none, some, ◌==◌, nat_eq, text_eq,
  if◌then◌else◌,
}
use hawk_apiserver.Text.{Text}
use hawk_apiserver.Proxy.Conn.{Conn, close}
use hawk_apiserver.Proxy.Director.{strip_port}
use hawk_apiserver.Proxy.Transport.{
  TlsConfig, empty_tls_config, Dialer, default_dialer, Transport, clone_tls_config,
}

-- `nil`, the base transport's configuration, or one of this transport's own.
pub data ConfigRef : Type 0 where
  no_config : ConfigRef
  of_base : ConfigRef
  own : ConfigRef

pub record Configs : Type 0 where
  pub base : TlsConfig
  pub own : TlsConfig

-- The fields that newConnHijackerTransport sets; MaxIdleConnsPerHost is -1, that is no idle
-- connections. The program sets DialTLS on no transport.
pub record HijackSettings : Type 0 where
  pub proxy_from_environment : Bool
  pub dial : Option Dialer
  pub tls_handshake_timeout : ℕ
  pub tls_client_config : ConfigRef

-- A configuration with NextProtos is cloned without them, and any other is shared.
abbrev config_ref : Option (List Text) → ConfigRef
config_ref none = of_base
config_ref (some _) = own

abbrev config_of_base : Option TlsConfig → ConfigRef × Configs
config_of_base none = (no_config, record { base = empty_tls_config; own = empty_tls_config })
config_of_base (some c) = (
  config_ref c.next_protos,
  record { base = c; own = record (clone_tls_config (some c)) { next_protos = none } },
)

-- newConnHijackerTransport
unfoldable pub hijack_settings : Option Transport → HijackSettings × Configs
unfolding clone_tls_config
hijack_settings (some b) = (
  record {
    proxy_from_environment = b.proxy_from_environment;
    dial = b.dial;
    tls_handshake_timeout = b.tls_handshake_timeout;
    tls_client_config = (config_of_base b.tls_client_config).0;
  },
  (config_of_base b.tls_client_config).1,
)
hijack_settings none = (
  record {
    proxy_from_environment = true;
    dial = none;
    tls_handshake_timeout = 10 * 1000;
    tls_client_config = no_config;
  },
  (config_of_base none).1,
)

-- getTransportDial
unfoldable pub transport_dial : HijackSettings → Dialer
transport_dial t = elim t.dial [ none ↦ default_dialer | some d ↦ d ]

-- What comes of the handshake within the time that is given for it, or without such a limit.
pub data Handshake : Type 0 where
  succeeds : Handshake
  fails : Handshake
  stalls : Handshake

-- `<-errc`: no error, an error, or no answer ever, as nothing sets a timer for a time-out of 0.
pub data Awaited : Type 0 where
  no_error : Awaited
  an_error : Awaited
  never : Awaited

unfoldable pub await : ℕ → Handshake → Awaited
await timeout succeeds = no_error
await timeout fails = an_error
await timeout stalls = if timeout == 0 then never else an_error

abbrev pub config_at : ConfigRef → Configs → TlsConfig
config_at no_config cs = empty_tls_config
config_at of_base cs = cs.base
config_at own cs = cs.own

-- An assignment through the reference; the configuration made for `nil` is kept by no one.
abbrev pub store_config : ConfigRef → TlsConfig → Configs → Configs
store_config no_config c cs = cs
store_config of_base c cs = record cs { base = c }
store_config own c cs = record cs { own = c }

-- The server's name is filled in from the address.
unfoldable pub name_server : Text → TlsConfig → TlsConfig
name_server addr c =
    if not c.insecure_skip_verify && c.server_name == []
    then record c { server_name = strip_port addr }
    else c

-- The name that the certificate is verified for.
unfoldable pub verified_name : Text → TlsConfig → Text
verified_name addr c = if c.server_name == [] then strip_port addr else c.server_name

-- The end of a dial: a TLS connection, an error after the plain connection was made, an error
-- before, or no end.
pub data Dialled : Type 0 where
  connected : Conn → Dialled
  refused : Conn → Dialled
  unreachable : Dialled
  hangs : Dialled

module _ (verify_hostname : Text → Bool) where
  abbrev pub verdict : Bool → Text → Conn → Dialled
  verdict skip name plain =
      if not skip && not (verify_hostname name) then refused (close plain) else connected plain

  abbrev shake : Text → TlsConfig → Conn → Awaited → Dialled
  shake addr c plain no_error = verdict c.insecure_skip_verify (verified_name addr c) plain
  shake addr c plain an_error = refused (close plain)
  shake addr c plain never = hangs

  abbrev dial_plain : HijackSettings → Configs → Text → Handshake → Option Conn → Dialled × Configs
  dial_plain t cs addr h none = (unreachable, cs)
  dial_plain t cs addr h (some plain) =
      let c = name_server addr (config_at t.tls_client_config cs) in
      (shake addr c plain (await t.tls_handshake_timeout h), store_config t.tls_client_config c cs)

  -- The function that getTransportDialTLS returns.
  unfoldable pub dial_tls :
      HijackSettings → Configs → Text → Option Conn → Handshake → Dialled × Configs
  unfolding await name_server verified_name close
  dial_tls t cs addr plain h = dial_plain t cs addr h plain

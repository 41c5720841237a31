-- ===== src/Tests/Tunnelling.antt =====
-- A tunnel, a dial and a flushed copy, step by step.
use hawk_apiserver.Prelude.{◌≡◌, refl, Bool, true, false, List, [], ◌∷◌, ◌++◌, Option, none, some}
use hawk_apiserver.Text.{Text, codes}
use hawk_apiserver.Http.{Request, Response, response_writer, send_body}
use hawk_apiserver.Proxy.Conn.{Conn, read, write, write_anyway}
use hawk_apiserver.Proxy.Hijack.{new_conn_hijacker, keep_conn, hijacked_read, hijacked_reads}
use hawk_apiserver.Proxy.Transport.{empty_tls_config}
use hawk_apiserver.Proxy.Tunnel as Tunnel
use hawk_apiserver.Proxy.Tunnel.{
  behind_switch, hijacked, open_tunnel, connect, opened, move, to_client, to_backend,
}
use hawk_apiserver.Proxy.Tunnel.Transparent.{tunnel-SameStreams}
use hawk_apiserver.Proxy.DialTls.{
  HijackSettings, Configs, hijack_settings, no_config, dial_tls, stalls,
}
use hawk_apiserver.Proxy.DialTls.Closing.{EndsWell, dial_tls-EndsWell}
use hawk_apiserver.Proxy.Serve.{conn_hijacker, tunnel, chunk}
use hawk_apiserver.Proxy.Latency as Latency
use hawk_apiserver.Tests.Samples.{get_at, fresh}

abbrev backend_conn : Conn
backend_conn = record {
  incoming = codes "HTTP/1.1 101frames";
  sent = [];
  writable = true;
  closed = false;
}

abbrev client_conn : Conn
client_conn = record { incoming = codes "hi"; sent = []; writable = true; closed = false }

abbrev no_dial : Text → Option Conn
no_dial _ = none

abbrev no_text : Request → Text
no_text _ = []

abbrev upgrade : Request
upgrade = get_at (codes "/socket")

-- The transport has read the head of the response, and the server the first byte of the client.
abbrev at_open : Tunnel.Tunnel
at_open = record {
  client = record client_conn { sent = codes "HTTP/1.1 101" };
  backend = record backend_conn { incoming = codes "frames"; sent = codes "?" };
}

abbrev moved : Tunnel.Tunnel
moved = record {
  client = record client_conn { sent = codes "HTTP/1.1 101fra" };
  backend = record backend_conn { incoming = codes "mes"; sent = codes "?" };
}

opens :
    behind_switch no_dial no_text
      (conn_hijacker none)
      (hijacked_reads (12 ∷ []) (keep_conn backend_conn new_conn_hijacker))
      (hijacked client_conn (codes "?"))
      (tunnel upgrade)
    ≡ some (opened at_open)
unfolding behind_switch open_tunnel connect hijacked_reads hijacked_read keep_conn read write
    write_anyway
opens = refl

a_move : Tunnel.Reach at_open moved
unfolding move read write_anyway
a_move = Tunnel.next Tunnel.start (to_client 3 refl)

tunnel-SameStreams_example :
    (moved.client.sent ++ moved.backend.incoming ≡ client_conn.sent ++ backend_conn.incoming)
    × (moved.backend.sent ++ moved.client.incoming
        ≡ backend_conn.sent ++ (codes "?" ++ client_conn.incoming))
tunnel-SameStreams_example =
    tunnel-SameStreams no_dial no_text none backend_conn client_conn (12 ∷ []) upgrade (codes "?")
      at_open moved refl opens a_move

-- The settings without a base transport.
abbrev settings : HijackSettings
settings = record {
  proxy_from_environment = true;
  dial = none;
  tls_handshake_timeout = 10000;
  tls_client_config = no_config;
}

abbrev configs : Configs
configs = record { base = empty_tls_config; own = empty_tls_config }

are_defaults : hijack_settings none ≡ (settings, configs)
unfolding hijack_settings
are_defaults = refl

abbrev no_name : Text → Bool
no_name _ = false

dial_tls-EndsWell_example :
    EndsWell no_name settings configs
      (codes "hawk:443")
      (some backend_conn)
      stalls
      (dial_tls no_name settings configs (codes "hawk:443") (some backend_conn) stalls).0
dial_tls-EndsWell_example =
    dial_tls-EndsWell no_name settings configs (codes "hawk:443") (some backend_conn) stalls

abbrev one_chunk : List Text
one_chunk = codes "ab" ∷ []

abbrev copied : Latency.System Response
copied = record {
  dst = (send_body (codes "ab") fresh).0;
  locked = false;
  copier = Latency.stopped false [];
  write_view = fresh;
  flusher = Latency.exited;
  flush_view = fresh;
  performed = chunk (codes "ab") ∷ [];
}

-- ===== src/Proxy/Tunnel.antt =====
-- The branch of ServeHTTP for a switch to a websocket: the two connections, and the copying of
-- bytes both ways, by one goroutine for each direction. A step copies what one Read gives.
pub mod Transparent
use hawk_apiserver.Prelude.{ℕ, ◌≡◌, Bool, true, false, List, [], ◌∷◌, ◌++◌, Option, none, some}
use hawk_apiserver.Text.{Text}
use hawk_apiserver.Http.{Request}
use hawk_apiserver.Proxy.Conn.{Conn, read, write, write_anyway, close}
use hawk_apiserver.Proxy.Serve.{RoundTripper, conn_hijacker, Served, tunnel}
use hawk_apiserver.Proxy.Hijack.{ConnHijacker}

-- What `rw.(http.Hijacker)` and Hijack give: no Hijacker, an error, or the connection with the bytes
-- that the buffered reader holds, none of them where it is nil.
pub data Hijacking : Type 0 where
  no_hijacker : Hijacking
  hijack_error : Hijacking
  hijacked : Conn → Text → Hijacking

pub record Tunnel : Type 0 where
  pub client : Conn
  pub backend : Conn

pub data Opened : Type 0 where
  -- `panic(rw)`
  panicked : Opened
  -- an error, returned after the connections at hand are closed
  returned_error : Opened
  opened : Tunnel → Opened

module _ (dial_host : Text → Option Conn) (request_text : Request → Text) where
  -- The else branch: a connection of its own, to which the request is written again.
  abbrev redial : Conn → Text → Request → Option Conn → Opened
  redial client buffered req none = returned_error
  redial client buffered req (some backend) = opened (record {
    client = client;
    backend = write_anyway buffered (write_anyway (request_text req) backend);
  })

  -- The other branch; without a connection that was dialled, the nil one is used.
  abbrev replayed : Text → Option Conn → Option Conn → Opened
  replayed buffered backend none = returned_error
  replayed buffered none (some client) = panicked
  replayed buffered (some backend) (some client) =
      opened (record { client = client; backend = write_anyway buffered backend })

  -- The backend's connection: the hijacked one, after its replay, or a new one.
  unfoldable pub connect : Option ConnHijacker → Request → Conn → Text → Opened
  unfolding write write_anyway
  connect none req client buffered = redial client buffered req (dial_host req.url.host)
  connect (some hj) req client buffered = replayed buffered hj.conn (write hj.replay client)

  unfoldable pub open_tunnel : Option ConnHijacker → Request → Hijacking → Opened
  unfolding connect
  open_tunnel hj req no_hijacker = panicked
  open_tunnel hj req hijack_error = returned_error
  open_tunnel hj req (hijacked client buffered) = connect hj req client buffered

-- A piece of `n` bytes that one of the two copies moves.
unfoldable pub move : ℕ → Conn → Conn → Conn × Conn
unfolding read write_anyway
move n from to = ((read n from).1, write_anyway (read n from).0 to)

pub data Step (t : Tunnel) : Tunnel → Type 0 where
  to_client :
      (n : ℕ)
      → t.client.writable ≡ true
      → Step t (record {
        client = (move n t.backend t.client).1;
        backend = (move n t.backend t.client).0;
      })
  to_backend :
      (n : ℕ)
      → t.backend.writable ≡ true
      → Step t (record {
        client = (move n t.client t.backend).0;
        backend = (move n t.client t.backend).1;
      })

pub data Reach (t : Tunnel) : Tunnel → Type 0 where
  start : Reach t t
  next : {u v : Tunnel} → Reach t u → Step u v → Reach t v

-- pooledIoCopy of the client's bytes returns: they are at an end. Both connections are closed.
unfoldable pub finish : Tunnel → Tunnel
unfolding close
finish t = record { client = close t.client; backend = close t.backend }

-- `transport.(*connHijackerTransport)`, with the state of that transport.
abbrev pub hijacker_of : RoundTripper → ConnHijacker → Option ConnHijacker
hijacker_of (conn_hijacker _) hj = some hj
hijacker_of _ hj = none

-- Where ServeHTTP has come to a switch to a websocket, the branch for it.
unfoldable pub behind_switch :
    (Text → Option Conn)
    → (Request → Text)
    → RoundTripper
    → ConnHijacker
    → Hijacking
    → Served
    → Option Opened
unfolding open_tunnel
behind_switch dial_host request_text transport hj h (tunnel req) =
    some (open_tunnel dial_host request_text (hijacker_of transport hj) req h)
behind_switch dial_host request_text transport hj h _ = none

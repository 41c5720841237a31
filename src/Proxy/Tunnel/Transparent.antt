-- ===== src/Proxy/Tunnel/Transparent.antt =====
-- Nothing is lost, repeated or reordered in a tunnel.
use hawk_apiserver.Prelude.{
  ℕ, ◌≡◌, refl, sym, true, List, [], ◌∷◌, ◌++◌, Option, some, take-append-drop, append_assoc, inl,
  inr, ◌∙◌, subst, Bool-cases,
}
use hawk_apiserver.Text.{Text}
use hawk_apiserver.Http.{Request}
use hawk_apiserver.Proxy.Conn.{Conn, read, write, write_anyway}
use hawk_apiserver.Proxy.Hijack.{
  ConnHijacker, new_conn_hijacker, keep_conn, hijacked_read, hijacked_reads,
}
use hawk_apiserver.Proxy.Transport.{Transport}
use hawk_apiserver.Proxy.Serve.{conn_hijacker, tunnel}
use hawk_apiserver.Proxy.Tunnel.{
  behind_switch, Tunnel, Step, to_client, to_backend, Reach, start, next, move, opened, open_tunnel,
  connect, hijacked,
}

-- What was written to the one connection, with what is still to come from the other.
abbrev pub stream : Conn → Conn → Text
stream from to = to.sent ++ from.incoming

stream-move :
    (n : ℕ) (from to : Conn)
    → to.writable ≡ true
    → (stream (move n from to).0 (move n from to).1 ≡ stream from to)
      × (stream (move n from to).1 (move n from to).0 ≡ stream to from)
unfolding move read write_anyway write
stream-move n from to ok = (rw (ok, append_assoc, take-append-drop n from.incoming), rw ok)

module _ (t : Tunnel) where
  -- Both directions carry what they carry in `t`.
  abbrev pub SameStreams : Tunnel → Type 0
  SameStreams u =
      (stream u.backend u.client ≡ stream t.backend t.client)
      × (stream u.client u.backend ≡ stream t.client t.backend)

  Step-SameStreams : {u v : Tunnel} → Step u v → SameStreams u → SameStreams v
  Step-SameStreams {u} (to_client n ok) (down, up) =
      let (a, b) = stream-move n u.backend u.client ok in (a ∙ down, b ∙ up)
  Step-SameStreams {u} (to_backend n ok) (down, up) =
      let (a, b) = stream-move n u.client u.backend ok in (b ∙ down, a ∙ up)

  Reach-SameStreams : {u : Tunnel} → Reach t u → SameStreams u
  Reach-SameStreams start = (refl, refl)
  Reach-SameStreams (next r st) = Step-SameStreams st (Reach-SameStreams r)

-- The replay and what is still to come are all that the backend sends.
pub record IsKept (c : Conn) (hj : ConnHijacker) : Type 0 where
  pub now : Conn
  pub conn : hj.conn ≡ some now
  pub all : hj.replay ++ now.incoming ≡ c.incoming
  pub sent : now.sent ≡ c.sent
  pub writable : now.writable ≡ c.writable

hijacked_read-IsKept :
    (c : Conn) (n : ℕ) (hj : ConnHijacker) → IsKept c hj → IsKept c (hijacked_read n hj)
unfolding hijacked_read read
hijacked_read-IsKept c n hj k =
    rw (hijacked_read, k.conn)
      (record {
        now = (read n k.now).1;
        conn = refl;
        all = rw (append_assoc, take-append-drop n k.now.incoming) k.all;
        sent = k.sent;
        writable = k.writable;
      })

hijacked_reads-IsKept :
    (c : Conn) (ns : List ℕ) (hj : ConnHijacker) → IsKept c hj → IsKept c (hijacked_reads ns hj)
unfolding hijacked_reads
hijacked_reads-IsKept c [] hj k = k
hijacked_reads-IsKept c (n ∷ ns) hj k =
    hijacked_reads-IsKept c ns (hijacked_read n hj) (hijacked_read-IsKept c n hj k)

keep_conn-IsKept : (c : Conn) → IsKept c (keep_conn c new_conn_hijacker)
unfolding keep_conn
keep_conn-IsKept c = record { now = c; conn = refl; all = refl; sent = refl; writable = refl }

module _ (dial_host : Text → Option Conn) (request_text : Request → Text) where
  abbrev Opens : Conn → Conn → Text → Tunnel → Type 0
  Opens client backend buffered t =
      (stream t.backend t.client ≡ client.sent ++ backend.incoming)
      × (stream t.client t.backend ≡ backend.sent ++ (buffered ++ client.incoming))

  abbrev joined : ConnHijacker → Conn → Conn → Text → Tunnel
  joined hj client now buffered = record {
    client = record client { sent = client.sent ++ hj.replay };
    backend = write_anyway buffered now;
  }

  open_tunnel_lem :
      (hj : ConnHijacker) (req : Request) (client now : Conn) (buffered : Text) (t : Tunnel)
      → hj.conn ≡ some now
      → open_tunnel dial_host request_text (some hj) req (hijacked client buffered) ≡ opened t
      → t ≡ joined hj client now buffered
  unfolding open_tunnel connect write
  open_tunnel_lem hj req client now buffered t c e = elim (Bool-cases client.writable) [
    | inl ok ↦ cc (rw (open_tunnel, connect, c, ok) at e)
    | inr bad ↦ cc (rw (open_tunnel, connect, c, bad) at e)
  ]

  joined-Opens :
      (hj : ConnHijacker) (client backend : Conn) (buffered : Text) (k : IsKept backend hj)
      → backend.writable ≡ true
      → Opens client backend buffered (joined hj client k.now buffered)
  unfolding write write_anyway
  joined-Opens hj client backend buffered k live =
      let ok : k.now.writable ≡ true = k.writable ∙ live in
      (rw (ok, append_assoc, k.all), rw (ok, append_assoc, k.sent))

  open_tunnel-SameStreams :
      (backend client : Conn) (ns : List ℕ) (req : Request) (buffered : Text) (t u : Tunnel)
      → backend.writable ≡ true
      → open_tunnel dial_host request_text
          (some (hijacked_reads ns (keep_conn backend new_conn_hijacker)))
          req
          (hijacked client buffered)
        ≡ opened t
      → Reach t u
      → (u.client.sent ++ u.backend.incoming ≡ client.sent ++ backend.incoming)
        × (u.backend.sent ++ u.client.incoming ≡ backend.sent ++ (buffered ++ client.incoming))
  open_tunnel-SameStreams backend client ns req buffered t u live e r =
      let hj = hijacked_reads ns (keep_conn backend new_conn_hijacker) in
      let k = hijacked_reads-IsKept backend ns _ (keep_conn-IsKept backend) in
      let (down, up) = Reach-SameStreams t r in
      let (down', up') =
        subst (Opens client backend buffered)
          (sym (open_tunnel_lem hj req client k.now buffered t k.conn e))
          (joined-Opens hj client backend buffered k live) in
      (down ∙ down', up ∙ up')

  some-inj {ℓ} : {A : Type ℓ} {a b : A} → some a ≡ some b → a ≡ b
  some-inj e = cc

  -- Where ServeHTTP ends in a switch to a websocket over the transport that keeps its connection,
  -- whatever that transport has read of it before: at any time of the tunnel the client has been
  -- sent the first bytes that the backend ever sent, and the rest is still to come; and the backend
  -- has been sent, after the request's head, the first of the bytes that followed that head. The
  -- backend's connection takes writes at first.
  pub tunnel-SameStreams :
      (base : Option Transport) (backend client : Conn) (ns : List ℕ) (req : Request)
      (buffered : Text) (t u : Tunnel)
      → backend.writable ≡ true
      → behind_switch dial_host request_text
          (conn_hijacker base)
          (hijacked_reads ns (keep_conn backend new_conn_hijacker))
          (hijacked client buffered)
          (tunnel req)
        ≡ some (opened t)
      → Reach t u
      → (u.client.sent ++ u.backend.incoming ≡ client.sent ++ backend.incoming)
        × (u.backend.sent ++ u.client.incoming ≡ backend.sent ++ (buffered ++ client.incoming))
  unfolding behind_switch
  tunnel-SameStreams base backend client ns req buffered t u live e r =
      open_tunnel-SameStreams backend client ns req buffered t u live (some-inj e) r

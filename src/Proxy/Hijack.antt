-- ===== src/Proxy/Hijack.antt =====
-- connHijackerTransport and hijackedConn: a transport that keeps the connection it dialled, and a
-- copy of what was read from it.
use hawk_apiserver.Prelude.{ℕ, List, [], ◌∷◌, ◌++◌, Option, none, some}
use hawk_apiserver.Text.{Text}
use hawk_apiserver.Proxy.Conn.{Conn, read}

-- `Conn` and `Replay`; no connection is dialled before the first request.
pub record ConnHijacker : Type 0 where
  pub conn : Option Conn
  pub replay : Text

-- newConnHijackerTransport takes a pooled buffer, cut to length 0.
abbrev pub new_conn_hijacker : ConnHijacker
new_conn_hijacker = record { conn = none; replay = [] }

-- The `t.Dial` and `t.DialTLS` that it installs: the connection is kept.
unfoldable pub keep_conn : Conn → ConnHijacker → ConnHijacker
keep_conn c hj = record hj { conn = some c }

abbrev read_from : ℕ → ConnHijacker → Option Conn → ConnHijacker
read_from n hj none = hj
read_from n hj (some c) = record hj { conn = some (read n c).1; replay = hj.replay ++ (read n c).0 }

-- hijackedConn.Read, which appends to the replay. (hijackedConn.Close does nothing.)
unfoldable pub hijacked_read : ℕ → ConnHijacker → ConnHijacker
unfolding read
hijacked_read n hj = read_from n hj hj.conn

-- The reads of a round trip, by which http.Transport gets the head of the response.
unfoldable pub hijacked_reads : List ℕ → ConnHijacker → ConnHijacker
unfolding hijacked_read
hijacked_reads [] hj = hj
hijacked_reads (n ∷ ns) hj = hijacked_reads ns (hijacked_read n hj)

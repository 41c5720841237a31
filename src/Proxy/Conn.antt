-- ===== src/Proxy/Conn.antt =====
-- net.Conn as the program uses it: the bytes that the other side still sends, and those written to
-- it. A Read gives some of the bytes that are to come, as many as the network chooses.
use hawk_apiserver.Prelude.{ℕ, Bool, true, ◌++◌, Option, none, some, take, drop, if◌then◌else◌}
use hawk_apiserver.Text.{Text}

pub record Conn : Type 0 where
  pub incoming : Text
  pub sent : Text
  pub writable : Bool
  pub closed : Bool

-- `conn.Read` of `n` bytes
unfoldable pub read : ℕ → Conn → Text × Conn
read n c = (take n c.incoming, record c { incoming = drop n c.incoming })

-- `conn.Write`; `none` is an error
unfoldable pub write : Text → Conn → Option Conn
write t c = if c.writable then some (record c { sent = c.sent ++ t }) else none

abbrev pub or_same : Conn → Option Conn → Conn
or_same c none = c
or_same c (some c') = c'

-- `conn.Write` where the code drops the error
unfoldable pub write_anyway : Text → Conn → Conn
unfolding write
write_anyway t c = or_same c (write t c)

unfoldable pub close : Conn → Conn
close c = record c { closed = true }

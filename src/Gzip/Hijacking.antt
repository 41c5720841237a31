-- ===== src/Gzip/Hijacking.antt =====
-- GzipResponseWriter.Hijack. The Hijacker below is `none` where the writer below is none.
use hawk_apiserver.Prelude.{Option, none, some}
use hawk_apiserver.Gzip.Writer.{GzipResponseWriter}
use hawk_apiserver.Proxy.Tunnel.{Hijacking, hijack_error}

module _ {W S : Type 0} where
  unfoldable pub hijack : Option (W → Hijacking) → GzipResponseWriter W S → Hijacking
  hijack none w = hijack_error
  hijack (some below) w = below w.inner

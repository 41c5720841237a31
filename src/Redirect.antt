-- ===== src/Redirect.antt =====
-- redirect.go: HTTP and HTTPS on one port. A connection is the bytes that its client will send;
-- `none` from Peek is an error, as on a connection that ends before six bytes.
pub mod Sniffing
use hawk_apiserver.Prelude.{
  ℕ, Bool, true, false, ◌&&◌, ◌||◌, List, [], ◌∷◌, ◌++◌, Option, none, some, ◌==◌, nat_eq,
  if◌then◌else◌, take, drop, length, leb,
}
use hawk_apiserver.Text.{Text, codes}
use hawk_apiserver.Http.{ResponseWriter, Request, Url}

-- What Accept returns: the connection as it is, or wrapped by tls.Server; both read through the
-- buffer, which still holds the bytes that Peek saw.
pub data Accepted : Type 0 where
  plain : Text → Accepted
  tls_server : Text → Accepted

-- `bconn.buf.Peek(n)`
unfoldable pub peek : ℕ → Text → Option Text
peek n s = if leb n (length s) then some (take n s) else none

-- The tests on the first bytes: SSL 3.0 or TLS 1.0 to 1.2, and SSL 2.
unfoldable pub is_tls_header : Text → Bool
is_tls_header (b₀ ∷ b₁ ∷ _ ∷ _ ∷ _ ∷ b₅ ∷ _) =
    if b₀ == 0x16 && b₁ == 0x3 && b₅ == 0x1 then true else if b₀ == 0x80 then true else false
is_tls_header _ = false

abbrev pub split_conn : Text → Option Text → Accepted
split_conn s none = tls_server s
split_conn s (some hdr) = if is_tls_header hdr then tls_server s else plain s

-- SplitListener.Accept, on a connection that the listener accepted
unfoldable pub accept : Text → Accepted
unfolding peek is_tls_header
accept s = split_conn s (peek 6 s)

-- The URL that a plain request is sent on to.
unfoldable pub redirect_url : Request → Url
redirect_url r = record {
  scheme = codes "https";
  opaque = r.url.opaque;
  user = r.url.user;
  host = r.host;
  path = r.url.path;
  raw_path = [];
  raw_query = r.url.raw_query;
  fragment = r.url.fragment;
}

-- HTTPRedirectHandler.ServeHTTP; `redirect w r url code` is http.Redirect.
module _ {W : Type 0} (url_string : Url → Text) (redirect : W → Request → Text → ℕ → W) where
  unfoldable pub serve_http : (W → Request → W) → W → Request → W
  unfolding redirect_url
  serve_http handler w r =
      if r.tls then handler w r else redirect w r (url_string (redirect_url r)) 301

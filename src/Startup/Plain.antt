-- ===== src/Startup/Plain.antt =====
-- What a connection without TLS gets to see.
use hawk_apiserver.Prelude.{
  Bool-cases, ◌⊎◌, inl, inr, ℕ, ◌≡◌, refl, true, false, Option, none, some,
}
use hawk_apiserver.Text.{Text}
use hawk_apiserver.Http.{Request, Url}
use hawk_apiserver.Redirect.{
  plain, tls_server, accept, split_conn, peek, is_tls_header, redirect_url, serve_http,
}
use hawk_apiserver.Redirect.Sniffing.{IsPlain, accept_iff}
use hawk_apiserver.Startup.{handled, serve_conn}

split_conn-cases :
    (s : Text) (o : Option Text) → (split_conn s o ≡ plain s) ⊎ (split_conn s o ≡ tls_server s)
split_conn-cases s none = inr refl
split_conn-cases s (some hdr) = elim (Bool-cases (is_tls_header hdr)) [
  | inl e ↦ inr (rw e refl)
  | inr e ↦ inl (rw e refl)
]

accept-cases : (s : Text) → (accept s ≡ plain s) ⊎ (accept s ≡ tls_server s)
unfolding accept
accept-cases s = split_conn-cases s (peek 6 s)

module _ {W : Type 0} (url_string : Url → Text) (redirect : W → Request → Text → ℕ → W)
    (read_request read_tls_request : Text → Option Request) where
  -- A request is redirected to the same place behind https, and without one nothing is written.
  abbrev pub redirected : Option Request → W → W
  redirected none w = w
  redirected (some r) w = redirect w (record r { tls = false }) (url_string (redirect_url r)) 301

  -- A handler gets a request with TLS, and without one nothing is written.
  abbrev pub passed : (W → Request → W) → Option Request → W → W
  passed handler none w = w
  passed handler (some r) w = handler w (record r { tls = true })

  handled-plain :
      (handler : W → Request → W) (o : Option Request) (w : W)
      → handled url_string redirect read_request read_tls_request handler false o w ≡ redirected o w
  unfolding serve_http redirect_url
  handled-plain handler none w = refl
  handled-plain handler (some r) w = refl

  handled-tls :
      (handler : W → Request → W) (o : Option Request) (w : W)
      → handled url_string redirect read_request read_tls_request handler true o w
        ≡ passed handler o w
  unfolding serve_http
  handled-tls handler none w = refl
  handled-tls handler (some r) w = refl

  -- The request of a connection that begins no handshake gets a redirection whatever the handler
  -- is, and the request that TLS reads from any other connection is served by the handler behind the
  -- redirection.
  pub serve_conn_lem :
      (handler : W → Request → W) (s : Text) (w : W)
      → (IsPlain s
          × (serve_conn url_string redirect read_request read_tls_request handler s w
              ≡ redirected (read_request s) w))
        ⊎ ((¬ IsPlain s)
            × (serve_conn url_string redirect read_request read_tls_request handler s w
                ≡ passed handler (read_tls_request s) w))
  unfolding serve_conn
  serve_conn_lem handler s w = elim (accept-cases s) [
    | inl e ↦ inl ((accept_iff s).0.0 e, rw e (handled-plain handler (read_request s) w))
    | inr e ↦ inr ((accept_iff s).1.0 e, rw e (handled-tls handler (read_tls_request s) w))
  ]

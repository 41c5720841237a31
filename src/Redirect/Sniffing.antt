-- ===== src/Redirect/Sniffing.antt =====
-- When a connection is taken for plain HTTP.
use hawk_apiserver.Prelude.{
  ◌≡◌, ◌≢◌, ◌≤◌, ◌⊎◌, ◌↔◌, [], ◌∷◌, some, nat_eq, length, get_elem?, arith,
}
use hawk_apiserver.Text.{Text}
use hawk_apiserver.Redirect.{plain, tls_server, accept}

-- No handshake of TLS or of SSL 2 begins with these bytes.
abbrev pub IsPlain : Text → Type 0
IsPlain s =
    (6 ≤ length s)
    × (get_elem? s 0 ≢ some 0x80)
    × ((get_elem? s 0 ≢ some 0x16) ⊎ ((get_elem? s 1 ≢ some 0x3) ⊎ (get_elem? s 5 ≢ some 0x1)))

-- A connection is served without TLS exactly when six bytes can be read and they begin neither a
-- handshake of SSL 3.0 to TLS 1.2 nor one of SSL 2; else it is served by TLS. Both servers read
-- the connection from its first byte.
pub accept_iff :
    (s : Text) → ((accept s ≡ plain s) ↔ IsPlain s) × ((accept s ≡ tls_server s) ↔ (¬ IsPlain s))
unfolding accept
accept_iff [] = ground arith
accept_iff (a ∷ []) = ground arith
accept_iff (a ∷ b ∷ []) = ground arith
accept_iff (a ∷ b ∷ c ∷ []) = ground arith
accept_iff (a ∷ b ∷ c ∷ d ∷ []) = ground arith
accept_iff (a ∷ b ∷ c ∷ d ∷ e ∷ []) = ground arith
accept_iff (a ∷ b ∷ c ∷ d ∷ e ∷ f ∷ s) = ground arith

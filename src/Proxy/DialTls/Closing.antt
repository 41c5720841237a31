-- ===== src/Proxy/DialTls/Closing.antt =====
-- How a TLS dial ends.
use hawk_apiserver.Prelude.{
  ◌≡◌, refl, sym, ◌⊎◌, inl, inr, Bool, true, false, not, ◌&&◌, [], ◌∷◌, Option, none, some, ◌==◌,
  nat_eq, nat_beq_iff, text_eq, text_beq, if◌then◌else◌, Bool-cases,
}
use hawk_apiserver.Text.{Text}
use hawk_apiserver.Proxy.Conn.{Conn, close}
use hawk_apiserver.Proxy.Director.{strip_port}
use hawk_apiserver.Proxy.Transport.{TlsConfig}
use hawk_apiserver.Proxy.DialTls.{
  Configs, HijackSettings, Handshake, succeeds, fails, stalls, await, config_at, name_server,
  verified_name, Dialled, connected, refused, unreachable, hangs, dial_tls, verdict,
}

if_same : (b : Bool) (s : Text) → (if b then s else s) ≡ s
if_same true s = refl
if_same false s = refl

module _ (verify_hostname : Text → Bool) where
  -- A connection comes from a handshake that succeeded, and the certificate is good for the name
  -- unless the configuration skips that; a plain connection that leads to no TLS connection is closed.
  abbrev pub EndsWell : HijackSettings → Configs → Text → Option Conn → Handshake → Dialled → Type 0
  EndsWell t cs addr plain h (connected c) =
      (plain ≡ some c)
      × (h ≡ succeeds)
      × (((config_at t.tls_client_config cs).insecure_skip_verify ≡ true)
          ⊎ (verify_hostname (verified_name addr (config_at t.tls_client_config cs)) ≡ true))
  EndsWell t cs addr plain h (refused c) =
      (p : Conn) × (plain ≡ some p) × (c ≡ record p { closed = true })
  EndsWell t cs addr plain h unreachable = plain ≡ none
  EndsWell t cs addr plain h hangs = (h ≡ stalls) × (t.tls_handshake_timeout ≡ 0)

  filled_in : Bool → Text → Text → Text
  filled_in skip name host = if not skip && name == [] then host else name

  filled_twice :
      (skip : Bool) (name host : Text)
      → (if filled_in skip name host == [] then host else filled_in skip name host)
        ≡ (if name == [] then host else name)
  unfolding filled_in text_beq
  filled_twice true name host = refl
  filled_twice false [] host = if_same (host == []) host
  filled_twice false (_ ∷ _) host = refl

  server_name-name_server :
      (addr : Text) (c : TlsConfig)
      → (name_server addr c).server_name
        ≡ filled_in c.insecure_skip_verify c.server_name (strip_port addr)
  unfolding name_server filled_in
  server_name-name_server addr c =
      elim (Bool-cases (not c.insecure_skip_verify && c.server_name == [])) [
        | inl e ↦ rw e
        | inr e ↦ rw e
      ]

  verified_name-name_server :
      (addr : Text) (c : TlsConfig) → verified_name addr (name_server addr c) ≡ verified_name addr c
  unfolding verified_name
  verified_name-name_server addr c =
      rw (server_name-name_server addr c)
        (filled_twice c.insecure_skip_verify c.server_name (strip_port addr))

  insecure-name_server :
      (addr : Text) (c : TlsConfig)
      → (name_server addr c).insecure_skip_verify ≡ c.insecure_skip_verify
  unfolding name_server
  insecure-name_server addr c =
      elim (Bool-cases (not c.insecure_skip_verify && c.server_name == [])) [
        | inl e ↦ rw e
        | inr e ↦ rw e
      ]

  check_name-EndsWell :
      (t : HijackSettings) (cs : Configs) (addr : Text) (plain : Conn) (skip : Bool) (name : Text)
      → (config_at t.tls_client_config cs).insecure_skip_verify ≡ skip
      → verified_name addr (config_at t.tls_client_config cs) ≡ name
      → EndsWell t cs addr (some plain) succeeds (verdict verify_hostname skip name plain)
  check_name-EndsWell t cs addr plain true name e n = (refl, refl, inl e)
  check_name-EndsWell t cs addr plain false name e n = elim (Bool-cases (verify_hostname name)) [
    | inl v ↦ rw v (refl, refl, inr (rw n v))
    | inr v ↦ rw v (plain, refl, unfold close in refl)
  ]

  -- Every end of a TLS dial: a connection is that of the plain dial, after a handshake that succeeded,
  -- and its certificate is good for the server's name unless the configuration skips that; after an
  -- error the plain connection is closed; and the dial hangs only without a time-out.
  pub dial_tls-EndsWell :
      (t : HijackSettings) (cs : Configs) (addr : Text) (plain : Option Conn) (h : Handshake)
      → EndsWell t cs addr plain h (dial_tls verify_hostname t cs addr plain h).0
  unfolding dial_tls
  dial_tls-EndsWell t cs addr none h = refl
  dial_tls-EndsWell t cs addr (some plain) fails = (plain, refl, unfold close in refl)
  dial_tls-EndsWell t cs addr (some plain) stalls =
      elim (Bool-cases (t.tls_handshake_timeout == 0)) [
        | inl e ↦ rw (dial_tls, await, e) (refl, (nat_beq_iff t.tls_handshake_timeout 0).0 e)
        | inr e ↦ rw (dial_tls, await, e) (plain, refl, unfold close in refl)
      ]
  dial_tls-EndsWell t cs addr (some plain) succeeds =
      let c = config_at t.tls_client_config cs in
      check_name-EndsWell t cs addr plain _ _ (sym (insecure-name_server addr c))
        (sym (verified_name-name_server addr c))

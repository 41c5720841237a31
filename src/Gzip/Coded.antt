-- ===== src/Gzip/Coded.antt =====
-- The Content-Encoding of a response, in its header and as it was sent.
use hawk_apiserver.Prelude.{
  ℕ, ◌≡◌, inl, inr, List, [], ◌∷◌, Option, none, some, nat_eq, text_eq, Bool-cases, nat_beq,
}
use hawk_apiserver.Text.{Text}
use hawk_apiserver.Http.{
  Header, Response, response_writer, send_header, send_body, send_body_on, send,
}
use hawk_apiserver.Http.{set_header}
use hawk_apiserver.Gzip.Writer.{emit, send_code, set_type}
use hawk_apiserver.Gzip.Small.{encoding, set_type-encoding}

-- What the header that was sent says of the body.
abbrev pub encoding_sent : Option (ℕ × Header) → Text
encoding_sent none = []
encoding_sent (some (code, h)) = encoding h

-- The encoding of the header, now and as it was sent.
abbrev pub SentAs : Text → Option (ℕ × Header) → Type 0
SentAs e none = Unit
SentAs e (some (code, h)) = encoding h ≡ e

pub record IsCoded (e : Text) (r : Response) : Type 0 where
  pub now : encoding r.header ≡ e
  pub sent : SentAs e r.sent
  pub alive : r.broken ≡ none

module _ (e : Text) where
  SentAs-send :
      (c : ℕ) (o : Option (ℕ × Header)) (h : Header)
      → encoding h ≡ e
      → SentAs e o
      → SentAs e (send c o h)
  SentAs-send c none h p s = p
  SentAs-send c (some x) h p s = s

  send_header-IsCoded : (c : ℕ) (r : Response) → IsCoded e r → IsCoded e (send_header c r)
  unfolding send_header
  send_header-IsCoded c r m = record {
    now = m.now;
    sent = SentAs-send c r.sent r.header m.now m.sent;
    alive = m.alive;
  }

  pub send_code-IsCoded : (c : ℕ) (r : Response) → IsCoded e r → IsCoded e (send_code c r)
  unfolding send_code
  send_code-IsCoded c r m = elim (Bool-cases (nat_beq c 0)) [
    | inl p ↦ rw p m
    | inr p ↦ rw p (send_header-IsCoded c r m)
  ]

  send_body_on-IsCoded :
      (o : Option Text) (t : Text) (r : Response) → IsCoded e r → IsCoded e (send_body_on o t r).0
  unfolding send_body_on send_header
  send_body_on-IsCoded none t r m = record {
    now = m.now;
    sent = SentAs-send 200 r.sent r.header m.now m.sent;
    alive = m.alive;
  }
  send_body_on-IsCoded (some x) t r m = send_header-IsCoded 200 r m

  pub emit-IsCoded : (t : Text) (r : Response) → IsCoded e r → IsCoded e (emit t r).0
  unfolding emit send_body
  emit-IsCoded [] r m = m
  emit-IsCoded (c ∷ t) r m = send_body_on-IsCoded r.broken (c ∷ t) r m

  pub set_type-IsCoded :
      (f : Text → Text) (b : Text) (o : Option (List Text)) (r : Response)
      → IsCoded e r
      → IsCoded e (set_type f b o r)
  unfolding set_type set_header
  set_type-IsCoded f b none r m = record {
    now = rw (set_type-encoding f b none r) m.now;
    sent = m.sent;
    alive = m.alive;
  }
  set_type-IsCoded f b (some _) r m = m

  -- At the end of the request net/http sends the header if nothing did.
  pub encoding_sent-IsCoded :
      (r : Response) → IsCoded e r → encoding_sent (send_header 200 r).sent ≡ e
  unfolding send_header
  encoding_sent-IsCoded r m = sent-SentAs r.sent (SentAs-send 200 r.sent r.header m.now m.sent)
    where
      sent-SentAs :
          (o : Option (ℕ × Header))
          → SentAs e (send 200 o r.header)
          → encoding_sent (send 200 o r.header) ≡ e
      sent-SentAs none s = s
      sent-SentAs (some x) s = s

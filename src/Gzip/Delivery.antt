-- ===== src/Gzip/Delivery.antt =====
-- What a client gets through the gzip writer, whatever is written and in however many pieces.
use hawk_apiserver.Prelude.{
  ℕ, ◌≤◌, ◌<◌, ◌≡◌, refl, sym, ◌⊎◌, inl, inr, List, [], ◌∷◌, ◌++◌, Option, none, some, ◌==◌, nat_eq,
  text_eq, length, ltb, arith, append-nil, append_assoc, text_beq, Bool-cases, if◌then◌else◌,
}
use hawk_apiserver.Text.{Text, codes}
use hawk_apiserver.Map.{lookup}
use hawk_apiserver.Http.{Header, Response, response_writer, send_header}
use hawk_apiserver.Http.{set_header}
use hawk_apiserver.Gzip.Writer.{
  Compressor, GzipResponseWriter, emit, send_code, set_type, write, close_with, close, gzip_header,
}
use hawk_apiserver.Gzip.Flushing.{write_all}
use hawk_apiserver.Gzip.Small.{
  joined, encoding, emit-body, send_code-body, set_type-body, saving, typed, write-saving,
}
use hawk_apiserver.Gzip.Stream.{
  stream, zipping, write-first, coded, write_all-zipping, write-zipping, encoding-gzip_header,
}
use hawk_apiserver.Gzip.Coded.{
  encoding_sent, SentAs, IsCoded, send_code-IsCoded, emit-IsCoded, set_type-IsCoded,
  encoding_sent-IsCoded,
}

-- What a client makes of a response.
abbrev pub received : (Text → Option Text) → Response → Option Text
received decode r = if encoding_sent r.sent == codes "gzip" then decode r.body else some r.body

module _ (z : Compressor) (f : Text → Text) where
  -- The final response, as a client sees it.
  abbrev Ends : Text → Text → GzipResponseWriter Response z.State → Type 0
  Ends e t w = IsCoded e (close z w).0 × ((close z w).0.body ≡ t)

  close-saving-Ends :
      (r : Response) (c : ℕ) (t : Text) → IsCoded [] r → r.body ≡ [] → Ends [] t (saving z f r c t)
  unfolding close close_with
  close-saving-Ends r c t m empty =
      let (same, alive, kept) = send_code-body c r in
      let (added, left) = emit-body t (send_code c r) (rw alive m.alive) in
      (emit-IsCoded [] t (send_code c r) (send_code-IsCoded [] c r m), rw (added, same, empty) refl)

  write_all-zipping-IsCoded :
      (bs : List Text) (r : Response) (s : z.State) (c : ℕ) (t : Text)
      → IsCoded (codes "gzip") r
      → IsCoded (codes "gzip") (close z (write_all z f bs (zipping z f r s c t))).0
  unfolding close close_with write
  write_all-zipping-IsCoded [] r s c t m = emit-IsCoded (codes "gzip") (z.finish s) r m
  write_all-zipping-IsCoded (b ∷ bs) r s c t m =
      let o = lookup r.header (codes "Content-Type") in
      let out = z.deflate b s in
      let typed' = set_type-IsCoded (codes "gzip") f b o r m in
      rw (write-zipping z f r s c t b) (
        write_all-zipping-IsCoded bs _ out.0 c t
          (emit-IsCoded (codes "gzip") out.1 (typed z f b r) typed'))

  set_type-sent :
      (b : Text) (o : Option (List Text)) (r : Response)
      → r.sent ≡ none
      → (set_type f b o r).sent ≡ none
  unfolding set_type set_header
  set_type-sent b none r n = n
  set_type-sent b (some _) r n = n

  SentAs-none : (e : Text) (o : Option (ℕ × Header)) → o ≡ none → SentAs e o
  SentAs-none e none n = tt
  SentAs-none e (some x) n = cc

  coded-IsCoded :
      (q : Response) (c : ℕ)
      → q.sent ≡ none
      → q.broken ≡ none
      → IsCoded (codes "gzip") (coded z f q c)
  coded-IsCoded q c n a =
      send_code-IsCoded (codes "gzip") c (record q { header = gzip_header q.header })
        (record {
          now = encoding-gzip_header q.header;
          sent = SentAs-none (codes "gzip") q.sent n;
          alive = a;
        })

  -- From the write that fills the buffer to 512 bytes on, all goes to the compressor.
  write_all-first-Ends :
      (b : Text) (bs : List Text) (r : Response) (c : ℕ) (t : Text)
      → 512 ≤ length (t ++ b)
      → IsCoded [] r
      → r.sent ≡ none
      → r.body ≡ []
      → Ends
          (codes "gzip")
          (stream z z.reset ((t ++ b) ∷ bs))
          (write_all z f (b ∷ bs) (saving z f r c t))
  write_all-first-Ends b bs r c t big m n empty =
      let o = lookup r.header (codes "Content-Type") in
      let q = typed z f b r in
      let (same, alive) = set_type-body f b o r in
      let m' : IsCoded [] q = set_type-IsCoded [] f b o r m in
      let k = coded-IsCoded q c (set_type-sent b o r n) m'.alive in
      let out = z.deflate (t ++ b) z.reset in
      let (added, left) = emit-body out.1 (coded z f q c) k.alive in
      let (same', alive', left') = send_code-body c (record q { header = gzip_header q.header }) in
      let r' = (emit out.1 (coded z f q c)).0 in
      let g : IsCoded (codes "gzip") r' = emit-IsCoded (codes "gzip") out.1 (coded z f q c) k in
      let (body, kept) = write_all-zipping z f bs r' out.0 c [] g.alive in
      rw (write-first z f r c t b big m'.now k.alive)
        (write_all-zipping-IsCoded bs r' out.0 c [] g, rw (body, added, same', same, empty) refl)

  -- What is buffered and written goes out as it is, or as the stream of a compressor that was given
  -- it in pieces.
  abbrev Splits : Text → GzipResponseWriter Response z.State → Type 0
  Splits t w =
      Ends [] t w
      ⊎ ((ds : List Text) × (joined ds ≡ t) × Ends (codes "gzip") (stream z z.reset ds) w)

  write_all-saving-Splits :
      (bs : List Text) (r : Response) (c : ℕ) (t : Text)
      → IsCoded [] r
      → r.sent ≡ none
      → r.body ≡ []
      → Splits (t ++ joined bs) (write_all z f bs (saving z f r c t))
  write_all-saving-Splits [] r c t m n empty = inl (rw append-nil (close-saving-Ends r c t m empty))
  write_all-saving-Splits (b ∷ bs) r c t m n empty =
      let o = lookup r.header (codes "Content-Type") in
      let q = typed z f b r in
      let (same, alive) = set_type-body f b o r in
      elim (Bool-cases (ltb (length (t ++ b)) 512)) [
        | inl short ↦
            let small : length (t ++ b) < 512 = ground arith in
            rw (write-saving z f r c t b small, sym (append_assoc t b (joined bs)))
              (write_all-saving-Splits bs q c (t ++ b) (set_type-IsCoded [] f b o r m)
                (set_type-sent b o r n) (rw same empty))
        | inr long ↦
            let big : 512 ≤ length (t ++ b) = ground arith in
            inr (
              (t ++ b) ∷ bs,
              append_assoc t b (joined bs),
              write_all-first-Ends b bs r c t big m n empty,
            )
      ]

  -- If `decode` gives back what a compressor was given, then on a live connection without output
  -- and without a Content-Encoding so far, a handler below the gzip writer reaches the client with
  -- all that it wrote, in however many pieces: the body, decoded where the header that was sent
  -- names gzip, is what was written, in order.
  pub received-write_all :
      (decode : Text → Option Text)
      → ((bs : List Text) → decode (stream z z.reset bs) ≡ some (joined bs))
      → (bs : List Text) (r : Response) (c : ℕ) → encoding r.header ≡ []
      → r.sent ≡ none
      → r.broken ≡ none
      → r.body ≡ []
      → received decode (
          send_header 200
            (close z
              (write_all z f bs (record { inner = r; writer = none; code = c; buf = [] }))).0)
        ≡ some (joined bs)
  unfolding send_header text_beq
  received-write_all decode law bs r c plain n a empty =
      let m : IsCoded [] r = record { now = plain; sent = SentAs-none [] r.sent n; alive = a } in
      elim (write_all-saving-Splits bs r c [] m n empty) [
        | inl (k, body) ↦ rw (encoding_sent-IsCoded [] _ k, body)
        | inr (ds, same, (k, body)) ↦
            rw (encoding_sent-IsCoded (codes "gzip") _ k, body, law ds, same)
      ]

  -- If `decode` gives back what a compressor was given, then on a live connection without output
  -- and without a Content-Encoding so far, a handler below the gzip writer whose first write is of
  -- 512 bytes or more reaches the client compressed: the header that was sent names gzip, and the
  -- body decodes to all that the handler wrote.
  pub close-decode :
      (decode : Text → Option Text)
      → ((bs : List Text) → decode (stream z z.reset bs) ≡ some (joined bs))
      → (b : Text) (bs : List Text) (r : Response) (c : ℕ) → 512 ≤ length b
      → encoding r.header ≡ []
      → r.sent ≡ none
      → r.broken ≡ none
      → r.body ≡ []
      → (encoding_sent
            (send_header 200
              (close z (
                write_all z f
                  (b ∷ bs)
                  (record { inner = r; writer = none; code = c; buf = [] }))).0).sent
          ≡ codes "gzip")
        × (decode
              (send_header 200
                (close z (
                  write_all z f
                    (b ∷ bs)
                    (record { inner = r; writer = none; code = c; buf = [] }))).0).body
            ≡ some (joined (b ∷ bs)))
  unfolding send_header
  close-decode decode law b bs r c long plain n a empty =
      let m : IsCoded [] r = record { now = plain; sent = SentAs-none [] r.sent n; alive = a } in
      let (k, body) = write_all-first-Ends b bs r c [] long m n empty in
      (encoding_sent-IsCoded (codes "gzip") _ k, rw body (law (b ∷ bs)))

-- ===== src/Gzip/Stream.antt =====
-- A handler whose first write below the gzip writer is of 512 bytes or more.
use hawk_apiserver.Prelude.{
  ℕ, ◌≤◌, ◌≡◌, refl, true, false, List, [], ◌∷◌, ◌++◌, none, some, nat_eq, text_eq, length, leb,
  ltb, arith, append_assoc, text_beq,
}
use hawk_apiserver.Text.{Text, codes}
use hawk_apiserver.Map.{lookup}
use hawk_apiserver.Map.Laws.{lookup-insert, lookup-delete}
use hawk_apiserver.Http.Laws.{send_body_on-alive}
use hawk_apiserver.Http.{Header, Response, response_writer, get, set, del, canonical, send_body}
use hawk_apiserver.Gzip.Writer.{
  Compressor, GzipResponseWriter, emit, send_code, set_type, buffer, write_typed, write, close_with,
  close, compress, start_gzip, gzip_header,
}
use hawk_apiserver.Gzip.Flushing.{write_all}
use hawk_apiserver.Gzip.Small.{emit-body, set_type-encoding, set_type-body, encoding}

pub emit-alive :
    (t : Text) (r : Response)
    → r.broken ≡ none
    → ((emit t r).1 ≡ none) × ((emit t r).0.broken ≡ r.broken)
unfolding emit send_body
emit-alive [] r e = (refl, refl)
emit-alive (c ∷ t) r e = send_body_on-alive r.broken (c ∷ t) r e

pub encoding-gzip_header : (h : Header) → encoding (gzip_header h) ≡ codes "gzip"
unfolding get set del canonical text_beq
encoding-gzip_header h = rw (
  lookup-delete (set h (codes "Content-Encoding") (codes "gzip"))
      (canonical (codes "Content-Length")) (canonical (codes "Content-Encoding")),
  lookup-insert h (canonical (codes "Content-Encoding")) (canonical (codes "Content-Encoding"))
      (codes "gzip" ∷ []),
)

module _ (z : Compressor) where
  -- What a compressor emits for blocks from a state on, with the end of the stream.
  abbrev pub stream : z.State → List Text → Text
  stream s [] = z.finish s
  stream s (b ∷ bs) = (z.deflate b s).1 ++ stream (z.deflate b s).0 bs

  module _ (f : Text → Text) where
    abbrev pub zipping : Response → z.State → ℕ → Text → GzipResponseWriter Response z.State
    zipping r s c t = record { inner = r; writer = some s; code = c; buf = t }

    abbrev typed : Text → Response → Response
    typed b r = set_type f b (lookup r.header (codes "Content-Type")) r

    pub write-zipping :
        (r : Response) (s : z.State) (c : ℕ) (t b : Text)
        → (write z f b (zipping r s c t)).0
          ≡ zipping (emit (z.deflate b s).1 (typed b r)).0 (z.deflate b s).0 c t
    unfolding write write_typed compress
    write-zipping r s c t b = refl

    -- The text is behind the body, and the header has no other Content-Encoding.
    abbrev pub Continued : Response → Text → Response → Type 0
    Continued r t r' = (r'.body ≡ r.body ++ t) × (encoding r'.header ≡ encoding r.header)

    close-zipping :
        (r : Response) (s : z.State) (c : ℕ) (t : Text)
        → r.broken ≡ none
        → Continued r (z.finish s) (close z (zipping r s c t)).0
    unfolding close close_with
    close-zipping r s c t e = let (body, kept) = emit-body (z.finish s) r e in (body, rw kept refl)

    pub write_all-zipping :
        (bs : List Text) (r : Response) (s : z.State) (c : ℕ) (t : Text)
        → r.broken ≡ none
        → Continued r (stream s bs) (close z (write_all z f bs (zipping r s c t))).0
    write_all-zipping [] r s c t e = close-zipping r s c t e
    write_all-zipping (b ∷ bs) r s c t e =
        let o = lookup r.header (codes "Content-Type") in
        let (same, alive) = set_type-body f b o r in
        let live : (typed b r).broken ≡ none = rw alive e in
        let out = z.deflate b s in
        let r' = (emit out.1 (typed b r)).0 in
        let live' : r'.broken ≡ none = rw ((emit-alive out.1 (typed b r) live).1) live in
        let (body, kept) = write_all-zipping bs r' out.0 c t live' in
        let (added, left) = emit-body out.1 (typed b r) live in
        (
          rw (write-zipping r s c t b, body, added, same, append_assoc) refl,
          rw (write-zipping r s c t b, kept, left, set_type-encoding f b o r) refl,
        )

    -- The response when the compressor starts.
    abbrev pub coded : Response → ℕ → Response
    coded q c = send_code c (record q { header = gzip_header q.header })

    short_of : (n : ℕ) → ltb n n ≡ false
    short_of n = ground arith

    start_gzip-zipping :
        (q : Response) (c : ℕ) (u : Text)
        → (coded q c).broken ≡ none
        → start_gzip z (record { inner = q; writer = none; code = c; buf = u }) ≡ (
          zipping (emit (z.deflate u z.reset).1 (coded q c)).0 (z.deflate u z.reset).0 c [],
          none,
        )
    unfolding start_gzip compress
    start_gzip-zipping q c u e =
        rw ((emit-alive (z.deflate u z.reset).1 (coded q c) e).0, short_of (length u)) refl

    -- The write that fills the buffer to 512 bytes.
    pub write-first :
        (r : Response) (c : ℕ) (t b : Text)
        → 512 ≤ length (t ++ b)
        → encoding (typed b r).header ≡ []
        → (coded (typed b r) c).broken ≡ none
        → (write z f b (record { inner = r; writer = none; code = c; buf = t })).0
          ≡ zipping
              (emit (z.deflate (t ++ b) z.reset).1 (coded (typed b r) c)).0
              (z.deflate (t ++ b) z.reset).0
              c
              []
    unfolding write write_typed buffer text_beq
    write-first r c t b long plain e =
        rw (plain, big, start_gzip-zipping (typed b r) c (t ++ b) e) refl
      where
        big : leb 512 (length (t ++ b)) ≡ true
        big = ground arith

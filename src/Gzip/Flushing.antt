-- ===== src/Gzip/Flushing.antt =====
-- A Flush before the gzip writer has started to compress.
use hawk_apiserver.Prelude.{
  ℕ, ◌≡◌, inl, inr, List, [], ◌∷◌, ◌++◌, Option, none, some, ◌&&◌, ◌==◌, nat_eq, nat_beq, text_eq,
  length, leb, ltb, Bool-cases,
}
use hawk_apiserver.Text.{Text, codes}
use hawk_apiserver.Map.{lookup}
use hawk_apiserver.Http.Laws.{send-some, send_body_on-sent}
use hawk_apiserver.Http.{Header, Response, response_writer, get, send_header, send_body, set_header}
use hawk_apiserver.Gzip.Writer.{
  Compressor, GzipResponseWriter, min_size, emit, send_code, set_type, compress, start_gzip, buffer,
  write_typed, write, started, end_start, close_with, close, flush, flush_with, gzip_header,
}

module _ (x : ℕ × Header) where
  abbrev pub Committed : Response → Type 0
  Committed r = r.sent ≡ some x

  send_header-Committed : (c : ℕ) (r : Response) → Committed r → Committed (send_header c r)
  unfolding send_header
  send_header-Committed c r e = send-some c r.sent r.header e

  emit-Committed : (t : Text) (r : Response) → Committed r → Committed (emit t r).0
  unfolding emit send_body
  emit-Committed [] r e = e
  emit-Committed (c ∷ t) r e = send_body_on-sent r.broken (c ∷ t) r e

  send_code-Committed : (c : ℕ) (r : Response) → Committed r → Committed (send_code c r)
  unfolding send_code
  send_code-Committed c r e = elim (Bool-cases (nat_beq c 0)) [
    | inl z ↦ rw z e
    | inr z ↦ rw z (send_header-Committed c r e)
  ]

  set_type-Committed :
      (f : Text → Text) (b : Text) (o : Option (List Text)) (r : Response)
      → Committed r
      → Committed (set_type f b o r)
  unfolding set_type set_header
  set_type-Committed f b none r e = e
  set_type-Committed f b (some _) r e = e

  module _ (z : Compressor) where
    abbrev Held : GzipResponseWriter Response z.State → Type 0
    Held w = Committed w.inner

    compress-Held :
        (s : z.State) (b : Text) (w : GzipResponseWriter Response z.State)
        → Held w
        → Held (compress z s b w).0
    unfolding compress
    compress-Held s b w e = emit-Committed (z.deflate b s).1 w.inner e

    end_start-Held :
        (t : Text) (w : GzipResponseWriter Response z.State) (c : ℕ) (o : Option Text)
        → Held w
        → Held (end_start t (w, record { count = c; error = o })).0
    end_start-Held t w c (some e') e = e
    end_start-Held t w c none e = elim (Bool-cases (ltb c (length t))) [
      | inl p ↦ rw p e
      | inr p ↦ rw p e
    ]

    started-Held :
        (t : Text) (w : GzipResponseWriter Response z.State) (o : Option Text)
        → Held w
        → Held (started t (w, o)).0
    started-Held t w none e = e
    started-Held t w (some e') e = e

    start_gzip-Held : (w : GzipResponseWriter Response z.State) → Held w → Held (start_gzip z w).0
    unfolding start_gzip
    start_gzip-Held w e =
        let headed = record w.inner { header = gzip_header w.inner.header } in
        let w' = record w { inner = send_code w.code headed } in
        let c = compress z z.reset w.buf w' in
        end_start-Held w.buf c.0 c.1.count c.1.error
          (compress-Held z.reset w.buf w' (send_code-Committed w.code headed e))

    buffer-Held :
        (b : Text) (w : GzipResponseWriter Response z.State) → Held w → Held (buffer z b w).0
    unfolding buffer
    buffer-Held b w e =
        let w' : GzipResponseWriter Response z.State = record w { buf = w.buf ++ b } in
        let s = start_gzip z w' in
        elim (Bool-cases
          (get w.inner.header (codes "Content-Encoding") == [] && leb min_size (length w'.buf))) [
            | inl p ↦ rw p (started-Held b s.0 s.1 (start_gzip-Held w' e))
            | inr p ↦ rw p e
          ]

    write_typed-Held :
        (b : Text) (w : GzipResponseWriter Response z.State) (o : Option z.State)
        → Held w
        → Held (write_typed z b w o).0
    unfolding write_typed
    write_typed-Held b w none e = buffer-Held b w e
    write_typed-Held b w (some s) e = compress-Held s b w e

    write-Held :
        (f : Text → Text) (b : Text) (w : GzipResponseWriter Response z.State)
        → Held w
        → Held (write z f b w).0
    unfolding write
    write-Held f b w e =
        write_typed-Held b
          (record w { inner = set_type f b (lookup w.inner.header (codes "Content-Type")) w.inner })
          w.writer (set_type-Committed f b (lookup w.inner.header (codes "Content-Type")) w.inner e)

    close_with-Committed :
        (o : Option z.State) (w : GzipResponseWriter Response z.State)
        → Held w
        → Committed (close_with z o w).0
    unfolding close_with
    close_with-Committed none w e =
        emit-Committed w.buf (send_code w.code w.inner) (send_code-Committed w.code w.inner e)
    close_with-Committed (some s) w e = emit-Committed (z.finish s) w.inner e

abbrev pub write_all :
    (z : Compressor) (f : Text → Text)
    → List Text
    → GzipResponseWriter Response z.State
    → GzipResponseWriter Response z.State
write_all z f [] w = w
write_all z f (b ∷ bs) w = write_all z f bs (write z f b w).0

write_all-Held :
    (x : ℕ × Header) (z : Compressor) (f : Text → Text) (bs : List Text)
    (w : GzipResponseWriter Response z.State)
    → w.inner.sent ≡ some x
    → (write_all z f bs w).inner.sent ≡ some x
write_all-Held x z f [] w e = e
write_all-Held x z f (b ∷ bs) w e =
    write_all-Held x z f bs (write z f b w).0 (write-Held x z f b w e)

flush_with-sent :
    (z : Compressor) (w : GzipResponseWriter Response z.State) (o : Option z.State)
    → o ≡ none
    → w.inner.sent ≡ none
    → (flush_with z o w).inner.sent ≡ some (200, w.inner.header)
unfolding flush_with send_header
flush_with-sent z w none e n = rw n
flush_with-sent z w (some s) e n = cc

-- If neither the compressor nor the response has started, then after a Flush, any writes and Close
-- what was sent is status 200 and the header as it was at the Flush: not the status given to
-- WriteHeader, and no Content-Encoding that a later Write sets when it starts to compress.
pub close-flush :
    (z : Compressor) (f : Text → Text) (bs : List Text) (w : GzipResponseWriter Response z.State)
    → w.writer ≡ none
    → w.inner.sent ≡ none
    → (close z (write_all z f bs (flush z w))).0.sent ≡ some (200, w.inner.header)
unfolding close flush flush_with
close-flush z f bs w e n =
    let x : ℕ × Header = (200, w.inner.header) in
    let w' = flush z w in
    let v = write_all z f bs w' in
    close_with-Committed x z v.writer v
      (write_all-Held x z f bs w' (flush_with-sent z w w.writer e n))

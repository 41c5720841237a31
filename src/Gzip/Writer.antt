-- ===== src/Gzip/Writer.antt =====
-- GzipResponseWriter. The compressor of compress/gzip is a parameter: its state, what it emits for
-- a write, for a flush and at the end. `detect` is http.DetectContentType.
use hawk_apiserver.Prelude.{
  ℕ, not, ◌&&◌, List, [], ◌∷◌, ◌++◌, Option, none, some, ◌==◌, nat_eq, text_eq, if◌then◌else◌,
  length, leb, ltb,
}
use hawk_apiserver.Text.{Text, codes}
use hawk_apiserver.Map.{lookup}
use hawk_apiserver.Http.{Header, ResponseWriter, Written, get, set, del, set_header}

pub record Compressor : Type 1 where
  pub State : Type 0
  pub reset : State
  pub deflate : Text → State → State × Text
  pub sync : State → State × Text
  pub finish : State → Text

abbrev pub min_size : ℕ
min_size = 512

-- `code` 0 is no code. A nil `buf` is empty, and so is no other.
pub record GzipResponseWriter (W S : Type 0) : Type 0 where
  pub inner : W
  pub writer : Option S
  pub code : ℕ
  pub buf : Text

abbrev taken : Text → Option Text → Written
taken b none = record { count = length b; error = none }
taken b (some e) = record { count = 0; error = some e }

abbrev pub gzip_header : Header → Header
gzip_header h = del (set h (codes "Content-Encoding") (codes "gzip")) (codes "Content-Length")

module _ {W : Type 0} ⦃i : ResponseWriter W⦄ where
  -- A compressor writes what it emits to the writer below.
  unfoldable pub emit : Text → W → W × Option Text
  emit [] w = (w, none)
  emit (c ∷ s) w = ((i.write (c ∷ s) w).0, (i.write (c ∷ s) w).1.error)

  unfoldable pub send_code : ℕ → W → W
  send_code code w = if not (code == 0) then i.write_header code w else w

  -- The content type that Write sets unless the header has one.
  unfoldable pub set_type : (Text → Text) → Text → Option (List Text) → W → W
  set_type detect b none w = set_header (codes "Content-Type") (detect b) w
  set_type detect b (some _) w = w

module _ {W S : Type 0} where
  abbrev pub started :
      Text → GzipResponseWriter W S × Option Text → GzipResponseWriter W S × Written
  started b (w, none) = (w, record { count = length b; error = none })
  started b (w, some e) = (w, record { count = 0; error = some e })

  -- The end of startGzip: io.ErrShortWrite keeps the buffer.
  abbrev pub end_start :
      Text → GzipResponseWriter W S × Written → GzipResponseWriter W S × Option Text
  end_start buf (w, n) = elim n.error [
    | none ↦
        if ltb n.count (length buf)
        then (w, some (codes "short write"))
        else (record w { buf = [] }, none)
    | some e ↦ (record w { buf = [] }, some e)
  ]

module _ (z : Compressor) {W : Type 0} ⦃i : ResponseWriter W⦄ where
  open z use {State, reset, deflate, sync, finish}

  -- `w.writer.Write(b)` with the compressor in a state
  unfoldable pub compress :
      State → Text → GzipResponseWriter W State → GzipResponseWriter W State × Written
  unfolding emit
  compress s b w =
      let out = deflate b s in
      let sent = emit out.1 w.inner in
      (record w { inner = sent.0; writer = some out.0 }, taken b sent.1)

  unfoldable pub start_gzip : GzipResponseWriter W State → GzipResponseWriter W State × Option Text
  unfolding compress send_code
  start_gzip w =
      let headed = i.with_header (gzip_header (i.header w.inner)) w.inner in
      let coded = send_code w.code headed in
      end_start w.buf (compress reset w.buf (record w { inner = coded }))

  -- The branch of Write in which no compressor is at work yet.
  unfoldable pub buffer : Text → GzipResponseWriter W State → GzipResponseWriter W State × Written
  unfolding start_gzip
  buffer b w =
      let w' : GzipResponseWriter W State = record w { buf = w.buf ++ b } in
      if get (i.header w'.inner) (codes "Content-Encoding") == [] && leb min_size (length w'.buf)
      then started b (start_gzip w')
      else (w', record { count = length b; error = none })

  unfoldable pub write_typed :
      Text → GzipResponseWriter W State → Option State → GzipResponseWriter W State × Written
  unfolding compress buffer
  write_typed b w none = buffer b w
  write_typed b w (some s) = compress s b w

  unfoldable pub write :
      (Text → Text) → Text → GzipResponseWriter W State → GzipResponseWriter W State × Written
  unfolding write_typed set_type
  write detect b w =
      write_typed b
        (record w {
          inner = set_type detect b (lookup (i.header w.inner) (codes "Content-Type")) w.inner;
        })
        w.writer

  unfoldable pub write_header : ℕ → GzipResponseWriter W State → GzipResponseWriter W State
  write_header code w = record w { code = code }

  -- Close: the buffer goes out as it is, or the compressor ends its stream.
  unfoldable pub close_with : Option State → GzipResponseWriter W State → W × Option Text
  unfolding send_code emit
  close_with none w = emit w.buf (send_code w.code w.inner)
  close_with (some s) w = emit (finish s) w.inner

  unfoldable pub close : GzipResponseWriter W State → W × Option Text
  unfolding close_with
  close w = close_with w.writer w

  unfoldable pub flush_with : Option State → GzipResponseWriter W State → GzipResponseWriter W State
  unfolding emit
  flush_with none w = record w { inner = i.flush w.inner }
  flush_with (some s) w =
      let out = sync s in record w { inner = i.flush (emit out.1 w.inner).0; writer = some out.0 }

  unfoldable pub flush : GzipResponseWriter W State → GzipResponseWriter W State
  unfolding flush_with
  flush w = flush_with w.writer w

  -- The writer as an http.ResponseWriter for the handlers inside.
  abbrev pub gzip_writer : (Text → Text) → ResponseWriter (GzipResponseWriter W State)
  gzip_writer detect = record {
    header = λ w. i.header w.inner;
    with_header = λ h w. record w { inner = i.with_header h w.inner };
    write_header = write_header;
    write = write detect;
    flush = flush;
  }

-- ===== src/Gzip/Handler.antt =====
-- NewGzipHandler
use hawk_apiserver.Prelude.{none, [], if◌then◌else◌}
use hawk_apiserver.Text.{Text, codes}
use hawk_apiserver.Http.{ResponseWriter, Request, add}
use hawk_apiserver.Gzip.Encodings.{Floats, accepts_gzip}
use hawk_apiserver.Gzip.Writer.{Compressor, GzipResponseWriter, gzip_writer, close}

-- An http.Handler works on any writer.
abbrev pub Handler : Type 1
Handler = (V : Type 0) → ResponseWriter V → V → Request → V

module _ (fl : Floats) (z : Compressor) (detect : Text → Text) where
  unfoldable pub new_gzip_handler : Handler → Handler
  unfolding accepts_gzip close
  new_gzip_handler h W i' w r =
      let instance i = i' in
      let varied = i.with_header (add (i.header w) (codes "Vary") (codes "Accept-Encoding")) w in
      if accepts_gzip fl r
      then (close z (
          h (GzipResponseWriter W z.State) (gzip_writer z detect)
            (record { inner = varied; writer = none; code = 0; buf = [] }) r)).0
      else h W i varied r

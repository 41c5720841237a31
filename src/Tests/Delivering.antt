-- ===== src/Tests/Delivering.antt =====
-- What a client gets of some writes through the gzip writer, and which requests take gzip.
use hawk_apiserver.Prelude.{ℕ, ◌-◌, ◌≡◌, refl, Bool, true, false, List, [], ◌∷◌, none, some, ltb}
use hawk_apiserver.Text.{Text, codes, split}
use hawk_apiserver.Map.{lookup}
use hawk_apiserver.Http.{Request, get, response_writer, send_header}
use hawk_apiserver.Gzip.Writer.{close}
use hawk_apiserver.Gzip.Small.{joined}
use hawk_apiserver.Gzip.Flushing.{write_all}
use hawk_apiserver.Gzip.Delivery.{received, received-write_all, close-decode}
use hawk_apiserver.Gzip.Coded.{encoding_sent}
use hawk_apiserver.Gzip.Encodings.{Floats, parse_coding, accepts_gzip, value_or_zero}
use hawk_apiserver.Gzip.Encodings.Accepting.{
  last_quality, last_named, parse_coding-qvalue, accepts_gzip_lem,
}
use hawk_apiserver.Tests.Gzipping.{
  storing, plain_type, unmark, unmark-stream, long_write, long_enough, two_writes, idle_writer,
}
use hawk_apiserver.Tests.Samples.{get_at, fresh}

abbrev three_writes : List Text
three_writes = codes "a" ∷ long_write ∷ codes "b" ∷ []

received-write_all_example :
    received unmark
      (send_header 200 (close storing (write_all storing plain_type three_writes idle_writer)).0)
    ≡ some (joined three_writes)
unfolding get lookup
received-write_all_example =
    received-write_all storing plain_type unmark unmark-stream three_writes fresh 404 refl refl refl
      refl

close-decode_example :
    (encoding_sent
        (send_header 200
          (close storing
            (write_all storing plain_type (long_write ∷ two_writes) idle_writer)).0).sent
      ≡ codes "gzip")
    × (unmark
          (send_header 200
            (close storing
              (write_all storing plain_type (long_write ∷ two_writes) idle_writer)).0).body
        ≡ some (joined (long_write ∷ two_writes)))
unfolding get lookup
close-decode_example =
    close-decode storing plain_type unmark unmark-stream long_write two_writes fresh 404 long_enough
      refl refl refl refl

-- Qualities in tenths, read from a digit behind a point.
abbrev tenths : Text → ℕ × Bool
tenths (_ ∷ _ ∷ d ∷ []) = (d - 48, false)
tenths _ = (0, true)

abbrev pub in_tenths : Floats
in_tenths = record { Float = ℕ; zero = 0; one = 10; less = ltb; parse_float = tenths }

parse_coding-qvalue_example :
    (parse_coding in_tenths (codes "gzip;q=0.0;x")).qvalue
    ≡ last_quality in_tenths (codes "q=0.0" ∷ codes "x" ∷ [])
unfolding split
parse_coding-qvalue_example =
    parse_coding-qvalue in_tenths (codes "gzip;q=0.0;x") (codes "gzip")
      (codes "q=0.0" ∷ codes "x" ∷ []) refl

abbrev taking : Request
taking = record (get_at (codes "/x")) {
  header = (codes "Accept-Encoding", codes "gzip;q=0.5, br" ∷ []) ∷ [];
}

accepts_gzip_lem_example :
    accepts_gzip in_tenths taking
    ≡ ltb 0 (
        value_or_zero in_tenths (
          last_named in_tenths
            (codes "gzip")
            (split (get taking.header (codes "Accept-Encoding")) b',')
            none))
accepts_gzip_lem_example = accepts_gzip_lem in_tenths taking

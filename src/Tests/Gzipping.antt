-- ===== src/Tests/Gzipping.antt =====
-- Handlers below the gzip writer: a short response, a long one, and one with an early flush.
use hawk_apiserver.Prelude.{
  ℕ, zero, suc, ◌≤◌, ◌≡◌, refl, List, [], ◌∷◌, ◌++◌, Option, none, some, length, replicate, arith,
  append_assoc, append-nil,
}
use hawk_apiserver.Text.{Text, codes}
use hawk_apiserver.Http.{Response, response_writer}
use hawk_apiserver.Gzip.Writer.{Compressor, GzipResponseWriter, close, flush}
use hawk_apiserver.Gzip.Stream.{stream}
use hawk_apiserver.Gzip.Small.{joined, Delivered, close-write_all}
use hawk_apiserver.Gzip.Flushing.{write_all, close-flush}
use hawk_apiserver.Tests.Samples.{fresh}

-- A compressor that stores what it is given and emits it at the end, behind a mark.
abbrev pub storing : Compressor
storing = record {
  State = Text;
  reset = [];
  deflate = λ b s. (s ++ b, []);
  sync = λ s. ([], s);
  finish = λ s. 31 ∷ s;
}

abbrev teapot : GzipResponseWriter Response Text
teapot = record { inner = fresh; writer = none; code = 418; buf = codes "short" }

close-flush_example :
    (close storing (
      write_all storing
        (λ _. codes "text/plain")
        (codes "a" ∷ codes "b" ∷ [])
        (flush storing teapot))).0.sent
    ≡ some (200, teapot.inner.header)
close-flush_example =
    close-flush storing (λ _. codes "text/plain") (codes "a" ∷ codes "b" ∷ []) teapot refl refl

abbrev pub plain_type : Text → Text
plain_type _ = codes "text/plain"

abbrev pub two_writes : List Text
two_writes = codes "a" ∷ codes "bc" ∷ []

close-write_all_example :
    Delivered storing plain_type fresh
      (joined two_writes)
      (close storing (
        write_all storing plain_type two_writes
          (record { inner = fresh; writer = none; code = 418; buf = [] }))).0
close-write_all_example = close-write_all storing plain_type two_writes fresh 418 (omega arith) refl

-- What a client makes of the stored bytes.
abbrev pub unmark : Text → Option Text
unmark [] = none
unmark (_ ∷ s) = some s

stream-storing : (s : Text) (bs : List Text) → stream storing s bs ≡ 31 ∷ (s ++ joined bs)
stream-storing s [] = rw append-nil
stream-storing s (b ∷ bs) = rw (stream-storing (s ++ b) bs, append_assoc) refl

pub unmark-stream : (bs : List Text) → unmark (stream storing [] bs) ≡ some (joined bs)
unmark-stream bs = rw (stream-storing [] bs) refl

abbrev pub long_write : Text
long_write = replicate 512 b'a'

length-replicate : (n a : ℕ) → length (replicate n a) ≡ n
length-replicate zero a = refl
length-replicate (suc n) a = rw (length-replicate n a) refl

pub long_enough : 512 ≤ length long_write
long_enough = rw (length-replicate 512 b'a') (omega arith)

abbrev pub idle_writer : GzipResponseWriter Response Text
idle_writer = record { inner = fresh; writer = none; code = 404; buf = [] }

-- ===== src/Http/Writer.antt =====
-- http.ResponseWriter as an interface, the response of net/http as its first implementation, and
-- the helpers http.Error and io.WriteString.
use hawk_apiserver.Prelude.{ℕ, [], ◌∷◌, ◌++◌, Option, none, some, length}
use hawk_apiserver.Text.{Text, codes}
use hawk_apiserver.Http.Fields.{Header, set}

-- What a Write returns: the bytes taken, and the error.
pub record Written : Type 0 where
  pub count : ℕ
  pub error : Option Text

-- `Header()` gives a map that the caller may change; `with_header` is such a change. `flush` is
-- http.Flusher, which every writer here implements.
pub record ResponseWriter (W : Type 0) : Type 0 where
  pub header : W → Header
  pub with_header : Header → W → W
  pub write_header : ℕ → W → W
  pub write : Text → W → W × Written
  pub flush : W → W

-- The response of net/http. `sent` holds the status and the header as they went out; changes of
-- the header after that have no effect. `broken` is the error of a lost connection.
pub record Response : Type 0 where
  pub header : Header
  pub sent : Option (ℕ × Header)
  pub body : Text
  pub broken : Option Text

abbrev pub send : ℕ → Option (ℕ × Header) → Header → Option (ℕ × Header)
send code none h = some (code, h)
send code (some was) h = some was

-- The first of WriteHeader, Write and Flush sends the header, the latter two with status 200.
unfoldable pub send_header : ℕ → Response → Response
send_header code r = record r { sent = send code r.sent r.header }

-- A write on a connection by its error.
unfoldable pub send_body_on : Option Text → Text → Response → Response × Written
unfolding send_header
send_body_on (some e) t r = (send_header 200 r, record { count = 0; error = some e })
send_body_on none t r =
    (record (send_header 200 r) { body = r.body ++ t }, record { count = length t; error = none })

unfoldable pub send_body : Text → Response → Response × Written
unfolding send_body_on
send_body t r = send_body_on r.broken t r

instance abbrev pub response_writer : ResponseWriter Response
response_writer = record {
  header = λ r. r.header;
  with_header = λ h r. record r { header = h };
  write_header = send_header;
  write = send_body;
  flush = send_header 200;
}

module _ {W : Type 0} ⦃i : ResponseWriter W⦄ where
  -- `w.Header().Set(k, v)`
  unfoldable pub set_header : Text → Text → W → W
  set_header k v w = i.with_header (set (i.header w) k v) w

  -- `io.WriteString(w, t)`, its results unused
  unfoldable pub write_string : Text → W → W
  write_string t w = (i.write t w).0

  -- `http.Error(w, msg, code)`
  unfoldable pub http_error : Text → ℕ → W → W
  unfolding set_header write_string
  http_error msg code w = write_string (msg ++ b'\n' ∷ []) (
      i.write_header code (
        set_header (codes "X-Content-Type-Options") (codes "nosniff")
          (set_header (codes "Content-Type") (codes "text/plain; charset=utf-8") w)))

-- ===== src/Gzip/Small.antt =====
-- A handler that writes less than 512 bytes below the gzip writer.
use hawk_apiserver.Prelude.{
  ℕ, ◌<◌, ◌≡◌, refl, sym, inl, inr, List, [], ◌∷◌, ◌++◌, Option, none, some, ◌==◌, nat_eq, text_eq,
  length, arith, Bool-cases, append-nil, append_assoc, length-append, nat_beq, text_beq,
}
use hawk_apiserver.Text.{Text, codes}
use hawk_apiserver.Map.{lookup}
use hawk_apiserver.Map.Laws.{lookup-insert}
use hawk_apiserver.Http.Laws.{send_body_on-body}
use hawk_apiserver.Http.{
  Header, Response, response_writer, get, set, canonical, send_header, send_body, set_header,
}
use hawk_apiserver.Gzip.Writer.{
  Compressor, GzipResponseWriter, emit, send_code, set_type, buffer, write_typed, write, close_with,
  close,
}
use hawk_apiserver.Gzip.Flushing.{write_all}

abbrev pub joined : List Text → Text
joined [] = []
joined (b ∷ bs) = b ++ joined bs

abbrev pub encoding : Header → Text
encoding h = get h (codes "Content-Encoding")

pub set_type-encoding :
    (f : Text → Text) (b : Text) (o : Option (List Text)) (r : Response)
    → encoding (set_type f b o r).header ≡ encoding r.header
unfolding set_type set_header get set canonical text_beq
set_type-encoding f b none r = rw (
    lookup-insert r.header (canonical (codes "Content-Type")) (canonical (codes "Content-Encoding"))
      (f b ∷ []))
set_type-encoding f b (some _) r = refl

pub set_type-body :
    (f : Text → Text) (b : Text) (o : Option (List Text)) (r : Response)
    → ((set_type f b o r).body ≡ r.body) × ((set_type f b o r).broken ≡ r.broken)
unfolding set_type set_header
set_type-body f b none r = (refl, refl)
set_type-body f b (some _) r = (refl, refl)

pub send_code-body :
    (c : ℕ) (r : Response)
    → ((send_code c r).body ≡ r.body)
      × ((send_code c r).broken ≡ r.broken)
      × ((send_code c r).header ≡ r.header)
unfolding send_code send_header
send_code-body c r = elim (Bool-cases (nat_beq c 0)) [
  | inl z ↦ rw z (refl, refl, refl)
  | inr z ↦ rw z (refl, refl, refl)
]

pub emit-body :
    (t : Text) (r : Response)
    → r.broken ≡ none
    → ((emit t r).0.body ≡ r.body ++ t) × ((emit t r).0.header ≡ r.header)
unfolding emit send_body
emit-body [] r e = (sym (append-nil r.body), refl)
emit-body (c ∷ t) r e = send_body_on-body r.broken (c ∷ t) r e

module _ (z : Compressor) (f : Text → Text) where
  -- The writer while it only saves what is written.
  abbrev pub saving : Response → ℕ → Text → GzipResponseWriter Response z.State
  saving r c t = record { inner = r; writer = none; code = c; buf = t }

  abbrev pub typed : Text → Response → Response
  typed b r = set_type f b (lookup r.header (codes "Content-Type")) r

  pub write-saving :
      (r : Response) (c : ℕ) (t b : Text)
      → length (t ++ b) < 512
      → (write z f b (saving r c t)).0 ≡ saving (typed b r) c (t ++ b)
  unfolding write write_typed buffer
  write-saving r c t b h =
      elim (Bool-cases (get (typed b r).header (codes "Content-Encoding") == [])) [
        | inl e ↦ ground arith
        | inr e ↦ ground arith
      ]

  -- The text is behind the body, and the header has no other Content-Encoding.
  abbrev pub Delivered : Response → Text → Response → Type 0
  Delivered r t r' = (r'.body ≡ r.body ++ t) × (encoding r'.header ≡ encoding r.header)

  close-saving :
      (r : Response) (c : ℕ) (t : Text) → r.broken ≡ none → Delivered r t (close z (saving r c t)).0
  unfolding close close_with
  close-saving r c t e =
      let (same, alive, kept) = send_code-body c r in
      let (added, left) = emit-body t (send_code c r) (rw alive e) in
      (rw (added, same) refl, rw (left, kept) refl)

  write_all-saving :
      (bs : List Text) (r : Response) (c : ℕ) (t : Text)
      → length (t ++ joined bs) < 512
      → r.broken ≡ none
      → Delivered r (t ++ joined bs) (close z (write_all z f bs (saving r c t))).0
  write_all-saving [] r c t h e = rw append-nil (close-saving r c t e)
  write_all-saving (b ∷ bs) r c t h e =
      let o = lookup r.header (codes "Content-Type") in
      let (same, alive) = set_type-body f b o r in
      let h' : length ((t ++ b) ++ joined bs) < 512 = rw append_assoc h in
      let short : length (t ++ b) < 512 = ground (arith, length-append (t ++ b) (joined bs), h') in
      let (body, kept) = write_all-saving bs (typed b r) c (t ++ b) h' (rw alive e) in
      (
        rw (write-saving r c t b short, body, same, append_assoc) refl,
        rw (write-saving r c t b short, kept, set_type-encoding f b o r) refl,
      )

  -- A handler below the gzip writer that writes less than 512 bytes in all, on a connection that
  -- holds, sends just these bytes: the body is not compressed, and the writer sets no
  -- Content-Encoding.
  pub close-write_all :
      (bs : List Text) (r : Response) (c : ℕ)
      → length (joined bs) < 512
      → r.broken ≡ none
      → Delivered r
          (joined bs)
          (close z (write_all z f bs (record { inner = r; writer = none; code = c; buf = [] }))).0
  close-write_all bs r c h e = write_all-saving bs r c [] h e

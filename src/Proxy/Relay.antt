-- ===== src/Proxy/Relay.antt =====
-- What a client gets from a proxy whose backend answers.
use hawk_apiserver.Prelude.{
  ℕ, ◌≡◌, refl, sym, Bool, true, false, not, List, [], ◌∷◌, ◌++◌, Option, none, some, map, ◌==◌,
  nat_eq, text_eq, if◌then◌else◌, length, ltb, append-nil, append_assoc,
}
use hawk_apiserver.Text.{Text, codes}
use hawk_apiserver.Map.{insert}
use hawk_apiserver.Http.Laws.{send-some}
use hawk_apiserver.Http.{
  Header, Request, Response, response_writer, send_body, send_body_on, send_header,
}
use hawk_apiserver.Proxy.Headers.{remove_hop_headers, copy_header}
use hawk_apiserver.Proxy.Transport.{ReverseProxy}
use hawk_apiserver.Proxy.Serve.{
  returned, BodyEvent, chunk, tick, BackendResponse, copy_events, copy_response, answer, respond,
  is_websocket,
}

-- The bytes that a body brings.
abbrev pub content : List BodyEvent → Text
content [] = []
content (tick ∷ es) = content es
content (chunk t ∷ es) = t ++ content es

-- A response that is under way on a live connection.
pub record IsOpen (x : ℕ × Header) (b : Text) (r : Response) : Type 0 where
  pub sent : r.sent ≡ some x
  pub body : r.body ≡ b
  pub alive : r.broken ≡ none

module _ (x : ℕ × Header) where
  send_header-IsOpen :
      (c : ℕ) (b : Text) (r : Response) → IsOpen x b r → IsOpen x b (send_header c r)
  unfolding send_header
  send_header-IsOpen c b r o = record {
    sent = send-some c r.sent r.header o.sent;
    body = o.body;
    alive = o.alive;
  }

  send_body_on-IsOpen :
      (t b : Text) (r : Response) (o : Option Text)
      → o ≡ none
      → IsOpen x b r
      → IsOpen x (b ++ t) (send_body_on o t r).0 × ((send_body_on o t r).1.error ≡ none)
  unfolding send_body_on send_header
  send_body_on-IsOpen t b r (some e) n o = cc
  send_body_on-IsOpen t b r none n o = (
    record { sent = send-some 200 r.sent r.header o.sent; body = rw o.body refl; alive = o.alive },
    refl,
  )

  -- Ticks and flushes leave no trace in the body.
  copy_events-IsOpen :
      (flushing : Bool) (es : List BodyEvent) (b : Text) (r : Response)
      → IsOpen x b r
      → IsOpen x (b ++ content es) (copy_events flushing es r)
  unfolding copy_events send_body
  copy_events-IsOpen flushing [] b r o = rw append-nil o
  copy_events-IsOpen true (tick ∷ es) b r o =
      copy_events-IsOpen true es b (send_header 200 r) (send_header-IsOpen 200 b r o)
  copy_events-IsOpen false (tick ∷ es) b r o = copy_events-IsOpen false es b r o
  copy_events-IsOpen flushing (chunk t ∷ es) b r o =
      let w = send_body_on-IsOpen t b r r.broken o.alive o in
      rw (copy_events, send_body, w.1, sym (append_assoc b t (content es)))
        (copy_events-IsOpen flushing es (b ++ t) (send_body t r).0 w.0)

-- The header that goes out before the body: what the writer held and the backend's headers but for
-- those of a single connection, and a list of the trailers that are announced.
abbrev pub relayed_header : BackendResponse → Header → Header
relayed_header res h =
    let copied = copy_header h (remove_hop_headers res.header) in
    if ltb 0 (length res.trailer)
    then insert copied (codes "Trailer") (map (λ f. f.0) res.trailer)
    else copied

first_sent :
    (c : ℕ) (h : Header) (b : Text) (r : Response)
    → r.sent ≡ none
    → r.broken ≡ none
    → r.body ≡ b
    → r.header ≡ h
    → IsOpen (c, h) b (send_header c r)
unfolding send_header
first_sent c h b r n a e k = record { sent = (rw (n, k) refl); body = e; alive = a }

reheader-IsOpen :
    (x : ℕ × Header) (b : Text) (h : Header) (r : Response)
    → IsOpen x b r
    → IsOpen x b (record r { header = h })
reheader-IsOpen x b h r o = record { sent = o.sent; body = o.body; alive = o.alive }

answer-IsOpen :
    (rp : ReverseProxy) (res : BackendResponse) (h : Header) (r : Response) (announced : Bool)
    → ltb 0 (length res.trailer) ≡ announced
    → (if announced
        then insert (copy_header r.header res.header) (codes "Trailer") (map (λ f. f.0) res.trailer)
        else copy_header r.header res.header)
      ≡ h
    → r.sent ≡ none
    → r.broken ≡ none
    → IsOpen (res.status, h) (r.body ++ content res.body) (answer rp res r)
unfolding answer copy_response
answer-IsOpen rp res h r true p k n a =
    let x : ℕ × Header = (res.status, h) in
    let r' : Response = record r {
      header =
          insert (copy_header r.header res.header) (codes "Trailer") (map (λ f. f.0) res.trailer);
    } in
    rw (answer, p)
      (reheader-IsOpen x (r.body ++ content res.body) _ _ (
        copy_events-IsOpen x (not (rp.flush_interval == 0)) res.body r.body _
          (send_header-IsOpen x 200 r.body _ (first_sent res.status h r.body r' n a refl k))))
answer-IsOpen rp res h r false p k n a =
    let x : ℕ × Header = (res.status, h) in
    let r' : Response = record r { header = copy_header r.header res.header } in
    rw (answer, p)
      (reheader-IsOpen x (r.body ++ content res.body) _ _ (
        copy_events-IsOpen x (not (rp.flush_interval == 0)) res.body r.body _
          (first_sent res.status h r.body r' n a refl k)))

-- A backend's answer that is no switch to a websocket reaches a client whose connection holds and
-- to whom nothing was sent: its status, the header that the proxy passes on, and the body, every
-- byte in order and whatever the timer of flushLoop does in between.
pub respond_lem :
    (rp : ReverseProxy) (req : Request) (res : BackendResponse) (r : Response)
    → is_websocket res ≡ false
    → r.sent ≡ none
    → r.broken ≡ none
    → ((respond rp req (some res) r).1 ≡ returned)
      × ((respond rp req (some res) r).0.sent ≡ some (res.status, relayed_header res r.header))
      × ((respond rp req (some res) r).0.body ≡ r.body ++ content res.body)
unfolding respond answer copy_response
respond_lem rp req res r ws n a =
    let stripped : BackendResponse = record res { header = remove_hop_headers res.header } in
    let o = answer-IsOpen rp stripped (relayed_header res r.header) r _ refl refl n a in
    rw (respond, ws) (refl, o.sent, o.body)

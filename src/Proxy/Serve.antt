-- ===== src/Proxy/Serve.antt =====
-- ReverseProxy.ServeHTTP and copyResponse. `round_trip` is the transport at work; `none` is its
-- error. What a backend's body brings over time is a list of chunks and of ticks of the timer that
-- flushLoop waits for. A switch to a websocket ends in `tunnel`: from there on bytes are copied
-- both ways over the hijacked connection.
use hawk_apiserver.Prelude.{
  ℕ, Bool, not, ◌&&◌, List, [], ◌∷◌, Option, none, some, map, ◌==◌, nat_eq, text_eq, if◌then◌else◌,
  length, ltb,
}
use hawk_apiserver.Text.{Text, codes, to_lower}
use hawk_apiserver.Map.{insert}
use hawk_apiserver.Http.{Url, Header, Request, ResponseWriter, get}
use hawk_apiserver.Outcome.{Outcome, done, ◌>>=◌}
use hawk_apiserver.Proxy.Director.{director}
use hawk_apiserver.Proxy.Transport.{Transport, ReverseProxy}
use hawk_apiserver.Proxy.Headers.{
  remove_hop_headers, copy_header, shallow_copy_trailers, request_is_websocket,
}

pub data BodyEvent : Type 0 where
  chunk : Text → BodyEvent
  tick : BodyEvent

-- `trailer` is what the response announces, and `final_trailer` what it holds once the body is
-- read and closed.
pub record BackendResponse : Type 0 where
  pub status : ℕ
  pub header : Header
  pub trailer : Header
  pub body : List BodyEvent
  pub final_trailer : Header

-- The transport that a request goes through.
pub data RoundTripper : Type 0 where
  default_transport : RoundTripper
  own_transport : Transport → RoundTripper
  conn_hijacker : Option Transport → RoundTripper

pub data Served : Type 0 where
  returned : Served
  failed : Served
  tunnel : Request → Served

abbrev of_transport : Option Transport → RoundTripper
of_transport none = default_transport
of_transport (some t) = own_transport t

unfoldable pub round_tripper : ReverseProxy → Request → RoundTripper
unfolding request_is_websocket
round_tripper rp req =
    if request_is_websocket req then conn_hijacker rp.transport else of_transport rp.transport

unfoldable pub is_websocket : BackendResponse → Bool
is_websocket res =
    res.status == 101 && to_lower (get res.header (codes "Upgrade")) == codes "websocket"

module _ {W : Type 0} ⦃i : ResponseWriter W⦄ where
  abbrev set_map : Header → W → W
  set_map h w = i.with_header h w

  -- io.Copy into the client, which a failed write ends.
  unfoldable pub copy_events : Bool → List BodyEvent → W → W
  copy_events flushing [] w = w
  copy_events flushing (tick ∷ es) w = copy_events flushing es (if flushing then i.flush w else w)
  copy_events flushing (chunk t ∷ es) w =
      let rest = copy_events flushing es (i.write t w).0 in
      elim ((i.write t w).1.error) [ none ↦ rest | some e ↦ (i.write t w).0 ]

  unfoldable pub copy_response : ReverseProxy → List BodyEvent → W → W
  unfolding copy_events
  copy_response rp body w = copy_events (not (rp.flush_interval == 0)) body w

  -- The branch of ServeHTTP that answers, after the hop-by-hop headers are gone.
  unfoldable pub answer : ReverseProxy → BackendResponse → W → W
  unfolding copy_header shallow_copy_trailers copy_response
  answer rp res w =
      let announced = ltb 0 (length res.trailer) in
      let copied = set_map (copy_header (i.header w) res.header) w in
      let listed =
        if announced
        then set_map (insert (i.header copied) (codes "Trailer") (map (λ f. f.0) res.trailer))
            copied
        else copied in
      let headed = i.write_header res.status listed in
      let opened = if announced then i.flush headed else headed in
      let filled = copy_response rp res.body opened in
      set_map
        (shallow_copy_trailers (i.header filled) res.final_trailer
          (not (length res.final_trailer == length res.trailer)))
        filled

  unfoldable pub respond : ReverseProxy → Request → Option BackendResponse → W → W × Served
  unfolding is_websocket remove_hop_headers answer
  respond rp req none w = (w, failed)
  respond rp req (some res) w =
      let stripped : BackendResponse = record res { header = remove_hop_headers res.header } in
      if is_websocket res then (w, tunnel req) else (answer rp stripped w, returned)

  unfoldable pub serve_http :
      (Url → Text)
      → (RoundTripper → Request → Option BackendResponse)
      → ReverseProxy
      → W
      → Request
      → Outcome (W × Served)
  unfolding director round_tripper respond
  serve_http url_string round_trip rp w req = do
    outreq ← director url_string rp.target rp.without req
    done (respond rp outreq (round_trip (round_tripper rp req) outreq) w)

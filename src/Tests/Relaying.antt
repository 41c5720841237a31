-- ===== src/Tests/Relaying.antt =====
-- The headers and the body that the proxy passes on.
use hawk_apiserver.Prelude.{
  ◌≢◌, ◌≡◌, refl, ◌||◌, [], ◌∷◌, ◌++◌, none, some, if◌then◌else◌, text_beq,
}
use hawk_apiserver.Text.{begins_with, ends_with, codes}
use hawk_apiserver.Map.{lookup}
use hawk_apiserver.Http.{Header, Request, response_writer, canonical}
use hawk_apiserver.Proxy.Director.{single_joining_slash}
use hawk_apiserver.Proxy.Joining.{single_joining_slash_lem, slash}
use hawk_apiserver.Proxy.Headers.{remove_hop_headers, copy_header, hop_headers}
use hawk_apiserver.Proxy.Headers.HopByHop.{named, connection_names, lookup-remove_hop_headers}
use hawk_apiserver.Proxy.Headers.Copying.{merged_or, lookup-copy_header}
use hawk_apiserver.Proxy.Transport.{ReverseProxy}
use hawk_apiserver.Proxy.Serve.{respond, returned, is_websocket}
use hawk_apiserver.Proxy.Relay.{content, relayed_header, respond_lem}
use hawk_apiserver.Tests.Samples.{url_at, get_at, fresh, backend}

abbrev backend_header : Header
backend_header =
    (codes "Connection", codes "close, X-Trace" ∷ [])
    ∷ (codes "X-Trace", codes "1" ∷ [])
    ∷ (codes "Etag", codes "e" ∷ [])
    ∷ []

lookup-remove_hop_headers_example : lookup (remove_hop_headers backend_header) (codes "X-Trace") ≡ (
    if named (codes "X-Trace") hop_headers
      || named (codes "X-Trace") (connection_names backend_header)
    then none
    else lookup backend_header (codes "X-Trace"))
lookup-remove_hop_headers_example = lookup-remove_hop_headers backend_header (codes "X-Trace")

abbrev own_header : Header
own_header = (codes "Vary", codes "Accept-Encoding" ∷ []) ∷ []

lookup-copy_header_example :
    lookup (copy_header own_header backend_header) (codes "Etag")
    ≡ merged_or
        (codes "Etag")
        (lookup backend_header (codes "Etag"))
        (lookup own_header (codes "Etag"))
unfolding canonical lookup text_beq
lookup-copy_header_example =
    lookup-copy_header backend_header own_header (codes "Etag")
      ((refl, refl, (refl, refl, (refl, refl, tt))))

abbrev sample_proxy : ReverseProxy
sample_proxy = record {
  target = url_at (codes "/b");
  without = [];
  transport = none;
  flush_interval = 250;
}

abbrev asked : Request
asked = get_at (codes "/x")

respond_lem_example :
    ((respond sample_proxy asked (some backend) fresh).1 ≡ returned)
    × ((respond sample_proxy asked (some backend) fresh).0.sent
        ≡ some (backend.status, relayed_header backend fresh.header))
    × ((respond sample_proxy asked (some backend) fresh).0.body
        ≡ fresh.body ++ content backend.body)
unfolding is_websocket
respond_lem_example = respond_lem sample_proxy asked backend fresh refl refl refl

not_empty : codes "dir" ≢ []
not_empty e = cc

single_joining_slash_lem_example :
    (single_joining_slash (codes "/base") (codes "dir") ≡ codes "/base" ++ slash ++ codes "dir")
    × (single_joining_slash (codes "/base" ++ slash) (codes "dir")
        ≡ codes "/base" ++ slash ++ codes "dir")
    × (single_joining_slash (codes "/base") (slash ++ codes "dir")
        ≡ codes "/base" ++ slash ++ codes "dir")
    × (single_joining_slash (codes "/base" ++ slash) (slash ++ codes "dir")
        ≡ codes "/base" ++ slash ++ codes "dir")
unfolding begins_with ends_with
single_joining_slash_lem_example =
    single_joining_slash_lem (codes "/base") (codes "dir") refl refl not_empty

-- ===== src/Tests/Serving.antt =====
-- The router, the proxies behind it and the threads around the CIB.
use hawk_apiserver.Prelude.{
  ◌≡◌, refl, inl, false, List, ◌++◌, [], ◌∷◌, none, some, length, text_eq, text_beq,
}
use hawk_apiserver.Text.{codes, has_prefix}
use hawk_apiserver.Outcome.{done}
use hawk_apiserver.Http.{Request, response_writer}
use hawk_apiserver.Auth.{check_hawk_auth_methods}
use hawk_apiserver.AsyncCib.{CibDocument, store}
use hawk_apiserver.AsyncCib.Threads.{
  Goroutine, cib_fetcher, mainloop, Notifier, with_notifier, System, Reach, start, next, publish,
  notify, watching, notifying, waiting, answered, update, init,
}
use hawk_apiserver.AsyncCib.Threads.Answers.{Inv, Reach-Inv}
use hawk_apiserver.AsyncCib.Threads.Tracing.{Served, here, later}
use hawk_apiserver.AsyncCib.Threads.Stale.{waiting-Served, stale_answer}
use hawk_apiserver.Server.Env.{RouteHandler}
use hawk_apiserver.Server.Proxies.{serve_proxy}
use hawk_apiserver.Server.Routes.{serve_http, try_routes, new_route_handler, kind}
use hawk_apiserver.Server.Routes.Confidential.{with_doc, map_handler, serve_http_confidential}
use hawk_apiserver.Server.Routes.Fallthrough.{try_routes-append}
use hawk_apiserver.Server.Routes.Growth.{Proxied, none_yet, one_more, proxies_grow}
use hawk_apiserver.Proxy.Transport.{new_single_host_reverse_proxy}
use hawk_apiserver.Tests.Samples.{
  get_at, url_at, fresh, env_with, api_route, proxy_route, config_with, handler_with,
}

abbrev below_api : Request
below_api = get_at (codes "/api/configuration/nodes")

abbrev api_only : RouteHandler
api_only = handler_with (api_route ∷ [])

is_denied :
    check_hawk_auth_methods (env_with none).attrd_updater (env_with none).hawk_chkpwd below_api
    ≡ false
unfolding check_hawk_auth_methods text_beq
is_denied = refl

serve_http_confidential_example :
    serve_http (env_with none) (with_doc (codes "secret") api_only) fresh below_api
    ≡ map_handler (with_doc (codes "secret")) (serve_http (env_with none) api_only fresh below_api)
serve_http_confidential_example =
    serve_http_confidential (env_with none) (codes "secret") below_api is_denied api_only fresh

abbrev elsewhere : Request
elsewhere = get_at (codes "/x")

try_routes-append_example :
    try_routes (env_with none) 0 api_only fresh elsewhere (api_route ∷ proxy_route ∷ [])
    ≡ try_routes (env_with none) 0 api_only fresh elsewhere (proxy_route ∷ [])
unfolding has_prefix
try_routes-append_example =
    try_routes-append (env_with none) 0 api_only fresh elsewhere (api_route ∷ []) (proxy_route ∷ [])
      (inl refl, tt)

abbrev proxying : RouteHandler
proxying = new_route_handler (config_with (proxy_route ∷ []))

proxied : Proxied (env_with none) proxying elsewhere
unfolding new_route_handler kind has_prefix text_beq
proxied = record {
  route = proxy_route;
  routes = [];
  target = codes "/b";
  url = url_at (codes "/b");
  first = refl;
  matches = refl;
  is_proxy = refl;
  parsed = refl;
}

abbrev after_one : RouteHandler
after_one = record proxying {
  proxies = (0, new_single_host_reverse_proxy (λ u. u.path) (url_at (codes "/b")) [] 2) ∷ [];
  next_address = 1;
}

served_once : serve_http (env_with none) proxying fresh elsewhere ≡ done (fresh, after_one)
unfolding serve_http new_route_handler has_prefix text_beq serve_proxy
    hawk_apiserver.Proxy.Serve.serve_http new_single_host_reverse_proxy
served_once = refl

proxies_grow_example : length after_one.proxies ≡ 1
proxies_grow_example =
    proxies_grow (env_with none) 1 (config_with (proxy_route ∷ [])) after_one
      (one_more fresh fresh elsewhere none_yet proxied served_once)

abbrev first_cib : CibDocument
first_cib = record { text = codes "<cib/>"; version = codes "0:1:0" }

abbrev second_cib : CibDocument
second_cib = record { text = codes "<cib epoch=2/>"; version = codes "0:2:0" }

Reach-Inv_example : Inv (record init {
  cib = store first_cib init.cib;
  notifiers = with_notifier mainloop (notifying first_cib.version) init.notifiers;
  published = first_cib ∷ init.published;
})
Reach-Inv_example = Reach-Inv (next start (publish mainloop first_cib refl))

-- Both goroutines announce.
abbrev two_versions : Goroutine → Notifier
two_versions cib_fetcher = notifying (codes "v")
two_versions mainloop = notifying (codes "w")

abbrev one_waits : System
one_waits = record init { notifiers = two_versions; clients = λ _. waiting (codes "d") }

abbrev answered_by_other : System
answered_by_other = record one_waits { clients = update one_waits.clients 3 (answered (codes "w")) }

waiting-Served_example :
    (since : List CibDocument) × (answered_by_other.published ≡ since ++ one_waits.published)
    × Served cib_fetcher (codes "v") (codes "d") 3 one_waits since answered_by_other
waiting-Served_example =
    waiting-Served one_waits answered_by_other 3 cib_fetcher (codes "v") (codes "d") refl refl
      (later here (notify mainloop (codes "w") (codes "d") 3 refl refl))

stale_answer_example :
    (s : System) × Reach s
    × (s.published ≡ second_cib ∷ first_cib ∷ [])
    × ((g : Goroutine) → s.notifiers g ≡ watching)
    × (s.cib.version ≡ some second_cib.version)
    × (s.clients 5 ≡ answered first_cib.version)
stale_answer_example = stale_answer first_cib second_cib 5

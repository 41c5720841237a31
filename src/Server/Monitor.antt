-- ===== src/Server/Monitor.antt =====
-- routeHandler.serveMonitor: long polling for a new version of the CIB.
use hawk_apiserver.Prelude.{
  Bool, true, false, not, ◌&&◌, ◌||◌, List, [], ◌∷◌, ◌++◌, Option, none, some, ◌==◌, text_eq,
  if◌then◌else◌,
}
use hawk_apiserver.Text.{Text, codes, split}
use hawk_apiserver.Http.{ResponseWriter, Request, get, set_header, write_string}
use hawk_apiserver.AsyncCib.{wait}
use hawk_apiserver.Server.Env.{ConfigRoute}

abbrev first_or : Text → List Text → Text
first_or d [] = d
first_or d (p ∷ _) = p

-- The epoch that the client has seen: the first part of the query.
unfoldable pub client_epoch : Request → Text
client_epoch r = first_or [] (split r.url.raw_query b'&')

abbrev pub version_text : Option Text → Text
version_text none = []
version_text (some v) = v

-- Wait, or answer at once; `handed` is what a notifyNewCib hands to the Wait in time.
unfoldable pub new_epoch : Option Text → Option Text → Text → Text
unfolding wait
new_epoch handed version epoch =
    let now = version_text version in if now == [] || now == epoch then wait handed now else now

unfoldable pub epoch_json : Text → Text
epoch_json e = codes "{\"epoch\":\"" ++ e ++ codes "\"}\n"

module _ {W : Type 0} ⦃i : ResponseWriter W⦄ where
  unfoldable pub cors_headers : Text → W → W
  cors_headers origin w = set_header (codes "Access-Control-Max-Age") (codes "1728000") (
      set_header (codes "Access-Control-Allow-Headers")
        (codes "Origin, Content-Type, Accept, Authorization, X-CSRF-Token, Token")
        (set_header (codes "Access-Control-Allow-Methods") (codes "POST, GET, PUT, DELETE, OPTIONS")
          (set_header (codes "Access-Control-Allow-Credentials") (codes "true")
            (set_header (codes "Access-Control-Allow-Origin") origin w))))

  unfoldable pub monitor_headers : Request → W → W
  unfolding cors_headers
  monitor_headers r w =
      let w' = set_header (codes "Connection") (codes "keep-alive") (
        set_header (codes "Cache-Control") (codes "no-cache")
          (set_header (codes "Content-Type") (codes "application/json") w)) in
      let origin = get r.header (codes "Origin") in
      if not (origin == []) then cors_headers origin w' else w'

  unfoldable pub serve_monitor : Option Text → Option Text → W → Request → ConfigRoute → W × Bool
  unfolding client_epoch new_epoch epoch_json monitor_headers
  serve_monitor handed version w r route =
      if not (r.url.path == route.path) && not (r.url.path == route.path ++ codes ".json")
      then (w, false)
      else (
        write_string (epoch_json (new_epoch handed version (client_epoch r)))
            (i.flush (monitor_headers r w)),
        true,
      )

-- ===== src/Lib.antt =====
-- A model of hawk-apiserver, the HTTPS server of a Pacemaker cluster's web console.
--
-- The program keeps one copy of the cluster information base (CIB), tries a table of routes on each
-- request, and serves the CIB as JSON, a long poll for its version, static files and proxied
-- backends, below a gzip middleware and a listener that sends plain HTTP on to HTTPS.
--
-- Files and code:
--   Cib, Cib/*          api_structs.go: one record for each struct
--   Json, Marshal/*     encoding/json on these structs, by their tags; Json/Strings and Json/Reading
--                       read JSON, independently of the code
--   Api/Marshal         api_common.go: MarshalJSON
--   Api/Nodes, Api/Resources, Api/Constraints, Api/Cluster
--                       api_nodes.go, api_resources.go, api_constraints.go, api_cluster.go; Api/Url
--                       holds what they share, Api/Reply describes the answers independently,
--                       and Api/Readable and Api/Panicking are about all of them
--   Auth                util.go: checkHawkAuthMethods, checkBasicAuth
--   Config/Offset       util.go: contextAtOffset
--   Config/File         util.go: fatalSyntaxError, parseConfigFile
--   Config/Flags        main.go: the configuration in main
--   AsyncCib            main.go: AsyncCib; its threads, with both goroutines that announce, as a
--                       step relation in AsyncCib/Threads, and the loop of Start with the callbacks in AsyncCib/Fetch
--   Server/Env          main.go: Config, ConfigRoute, routeHandler, and the outside of the program
--   Server/Routes       main.go: NewRouteHandler, ServeHTTP
--   Server/ApiRoutes, Server/Monitor, Server/Files, Server/Proxies
--                       main.go: serveAPI, serveMonitor, serveFile, serveProxy and proxyForRoute
--   Proxy/Director, Proxy/Headers, Proxy/Transport, Proxy/Serve
--                       reverseproxy.go, tls_clone_go18.go
--   Proxy/Conn          net.Conn: what is still to come and what was written
--   Proxy/Hijack, Proxy/Tunnel, Proxy/DialTls
--                       reverseproxy.go: connHijackerTransport and hijackedConn, the branch of
--                       ServeHTTP for a websocket, getTransportDial and getTransportDialTLS
--   Proxy/Latency       reverseproxy.go: maxLatencyWriter with the thread of flushLoop
--   Gzip/Encodings, Gzip/Writer, Gzip/Handler, Gzip/Hijacking
--                       gziphandler.go
--   Redirect            redirect.go: SplitListener.Accept, HTTPRedirectHandler
--   Startup             main.go: main, and redirect.go: ListenAndServeWithRedirect; Startup/Plain is
--                       about a connection on its way from Accept to a handler, and Startup/Stack
--                       about the handlers that main puts together
--   Http, Text, Map     what the code uses of net/http, net/url, strings and of Go's maps
--   Outcome             a result, or a panic, which ends the run that is modelled
--   Prelude             names of the libraries, Boolean tests and lemmas on lists
--   Tests               each theorem applied at a concrete input
--
-- A handler takes the writer and gives the writer back; ResponseWriter is an interface, which the
-- response of net/http and the gzip writer implement. A string is the list of its bytes, and case
-- mapping and white space are those of ASCII. JSON strings are taken to be valid UTF-8. Go's maps
-- are association lists, walked in their order. The router reads one snapshot of the CIB for each
-- request.
--
-- Parameters are encoding/xml, regexp, net/url, path, os.Stat, http.ServeFile, compress/gzip,
-- http.DetectContentType, strconv.ParseFloat, the programs attrd_updater and hawk_chkpwd, the
-- network behind the proxy, and for one request the version that another thread hands to its Wait.
--
-- Fuel: a number n of an entity tag is given n + 1 for its hexadecimal digits, of which it has no
-- more than that, and the reader of JSON more than the size of the value, which counts the levels
-- and the elements.
--
-- Of main the logger, the key pair and net.Listen are parameters too, and of a connection the
-- requests that net/http reads from it.
--
-- Not modelled: tls_clone_legacy.go, which is for older compilers, the text of the errors of
-- parseEncodings, which no caller reads, what is logged while the server runs, the XMLNAME fields,
-- and the vendored libraries.
pub mod Prelude
pub mod Text
pub mod Map
pub mod Http
pub mod Outcome
pub mod Auth
pub mod Api
pub mod Proxy
pub mod AsyncCib
pub mod Server
pub mod Gzip
pub mod Redirect
pub mod Startup
pub mod Config
pub mod Cib
pub mod Json
pub mod Marshal
pub mod Tests

-- ===== src/Proxy/Headers.antt =====
-- The headers of a proxied response: hop-by-hop fields, copyHeader, trailers, websocket upgrades.
-- A Go map is walked in the order of the association list that stands for it.
pub mod HopByHop
pub mod Copying
use hawk_apiserver.Prelude.{
  Bool, true, false, not, ◌&&◌, List, [], ◌∷◌, ◌++◌, Option, none, some, ◌==◌, text_eq,
  if◌then◌else◌,
}
use hawk_apiserver.Text.{Text, codes, contains, split, to_lower, trim_space}
use hawk_apiserver.Map.{lookup, insert}
use hawk_apiserver.Http.{Header, Request, get, add, del}

abbrev pub hop_headers : List Text
hop_headers =
    codes "Alt-Svc"
    ∷ codes "Alternate-Protocol"
    ∷ codes "Connection"
    ∷ codes "Keep-Alive"
    ∷ codes "Proxy-Authenticate"
    ∷ codes "Proxy-Authorization"
    ∷ codes "Proxy-Connection"
    ∷ codes "Te"
    ∷ codes "Trailer"
    ∷ codes "Transfer-Encoding"
    ∷ codes "Upgrade"
    ∷ []

-- `for _, h := range names { header.Del(h) }`
unfoldable pub del_all : List Text → Header → Header
del_all [] h = h
del_all (k ∷ ks) h = del_all ks (del h k)

-- The loop over the names in the Connection header.
unfoldable pub del_listed : List Text → Header → Header
unfolding trim_space
del_listed [] h = h
del_listed (f ∷ fs) h = del_listed fs (if not (trim_space f == []) then del h (trim_space f) else h)

-- The removal of hop-by-hop headers from the backend's response.
unfoldable pub remove_hop_headers : Header → Header
unfolding del_all del_listed
remove_hop_headers h =
    let c = get h (codes "Connection") in
    del_all hop_headers (if not (c == []) then del_listed (split c b',') h else h)

-- skipHeaders
abbrev pub skip_headers : List Text
skip_headers =
    codes "Content-Type"
    ∷ codes "Content-Disposition"
    ∷ codes "Accept-Ranges"
    ∷ codes "Set-Cookie"
    ∷ codes "Cache-Control"
    ∷ codes "Expires"
    ∷ []

unfoldable pub among : Text → List Text → Bool
among k [] = false
among k (j ∷ js) = if j == k then true else among k js

-- `for _, v := range vv { dst.Add(k, v) }`
unfoldable pub add_all : Header → Text → List Text → Header
add_all dst k [] = dst
add_all dst k (v ∷ vs) = add_all (add dst k v) k vs

-- One round of copyHeader, by whether the destination has the field.
unfoldable pub copy_field : Header → Text → List Text → Option (List Text) → Header
unfolding among add_all
copy_field dst k vv none = add_all dst k vv
copy_field dst k vv (some _) =
    if among k skip_headers
    then dst
    else add_all (if not (k == codes "Server") then del dst k else dst) k vv

unfoldable pub copy_header : Header → Header → Header
unfolding copy_field
copy_header dst [] = dst
copy_header dst ((k, vv) ∷ src) = copy_header (copy_field dst k vv (lookup dst k)) src

unfoldable pub shallow_copy_trailers : Header → Header → Bool → Header
shallow_copy_trailers dst [] force = dst
shallow_copy_trailers dst ((k, vv) ∷ src) force =
    shallow_copy_trailers (insert dst (if force then codes "Trailer:" ++ k else k) vv) src force

unfoldable pub request_is_websocket : Request → Bool
request_is_websocket req =
    to_lower (get req.header (codes "Upgrade")) == codes "websocket"
    && contains (to_lower (get req.header (codes "Connection"))) (codes "upgrade")

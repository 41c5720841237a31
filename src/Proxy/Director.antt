-- ===== src/Proxy/Director.antt =====
-- singleJoiningSlash, stripPort and the director of NewSingleHostReverseProxy, which rewrites a
-- request's URL to the target. `url_string` is net/url's URL.String.
use hawk_apiserver.Prelude.{
  ℕ, Bool, not, ◌&&◌, ◌||◌, [], ◌∷◌, ◌++◌, Option, none, some, ◌==◌, text_eq, if◌then◌else◌, length,
  drop, take, ltb, leb,
}
use hawk_apiserver.Text.{Text, codes, begins_with, ends_with, trim_prefix, last_index_byte}
use hawk_apiserver.Http.{Url, Request}
use hawk_apiserver.Outcome.{Outcome, done, panic, ◌>>=◌}

unfoldable pub single_joining_slash : Text → Text → Text
unfolding begins_with ends_with
single_joining_slash a b =
    let aslash = ends_with a b'/' in
    let bslash = begins_with b b'/' in
    if aslash && bslash
    then a ++ drop 1 b
    else if not aslash && not bslash && not (b == [])
    then a ++ b'/' ∷ b
    else a ++ b

-- val if it isn't empty, otherwise def
unfoldable pub prefer : Text → Text → Text
prefer val def = if not (val == []) then val else def

-- `s[n:]`, which panics past the end
unfoldable pub slice_from : Text → ℕ → Outcome Text
slice_from s n = if leb n (length s) then done (drop n s) else panic

-- The prefix is taken off the path, and off the encoded forms that are present.
unfoldable pub trim_url : Text → Url → Url
unfolding trim_prefix
trim_url p u = record u {
  path = trim_prefix u.path p;
  opaque = if not (u.opaque == []) then trim_prefix u.opaque p else u.opaque;
  raw_path = if not (u.raw_path == []) then trim_prefix u.raw_path p else u.raw_path;
}

unfoldable pub join_url : Url → Url → Url
unfolding prefer
join_url target u = record u {
  opaque =
      if not (u.opaque == []) || not (target.opaque == [])
      then single_joining_slash (prefer target.opaque target.path) (prefer u.opaque u.path)
      else u.opaque;
  raw_path =
      if not (u.raw_path == []) || not (target.raw_path == [])
      then single_joining_slash (prefer target.raw_path target.path) (prefer u.raw_path u.path)
      else u.raw_path;
  path = single_joining_slash target.path u.path;
}

unfoldable pub join_query : Text → Text → Text
join_query target_query query =
    if target_query == [] || query == []
    then target_query ++ query
    else target_query ++ b'&' ∷ query

abbrev pub is_unix : Url → Bool
is_unix target = target.scheme == codes "unix"

unfoldable pub set_origin : Url → Url → Url
set_origin target u =
    if is_unix target
    then record u { scheme = codes "http"; host = codes "socket" }
    else record u { scheme = target.scheme; host = target.host }

module _ (url_string : Url → Text) where
  unfoldable pub socket_prefix : Url → Outcome Text
  unfolding slice_from
  socket_prefix target = slice_from (url_string target) (length (codes "unix://"))

  unfoldable pub trim_socket : Url → Url → Outcome Url
  unfolding trim_url
  trim_socket target u =
      if is_unix target then (do p ← socket_prefix target; done (trim_url p u)) else done u

  unfoldable pub director : Url → Text → Request → Outcome Request
  unfolding set_origin trim_url join_url trim_socket join_query
  director target without req = do
    let origin = set_origin target req.url
    let bare = if not (without == []) then trim_url without origin else origin
    u ← trim_socket target (join_url target bare)
    done (record req { url = record u { raw_query = join_query target.raw_query u.raw_query } })

abbrev cut_port : Text → Option ℕ → Option ℕ → Text
cut_port address none _ = address
cut_port address (some port_idx) none = take port_idx address
cut_port address (some port_idx) (some ipv6_idx) =
    if ltb ipv6_idx port_idx then take port_idx address else address

-- stripPort; an index that Go gives as -1 is `none`
unfoldable pub strip_port : Text → Text
strip_port address = cut_port address (last_index_byte address b':') (last_index_byte address b']')

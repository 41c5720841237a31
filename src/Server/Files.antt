-- ===== src/Server/Files.antt =====
-- routeHandler.serveFile
pub mod Tags
use hawk_apiserver.Prelude.{
  ℕ, zero, suc, ◌+◌, Bool, true, false, not, ◌&&◌, [], ◌∷◌, ◌++◌, ◌==◌, text_eq, if◌then◌else◌, ltb,
}
use Prim.Native.Nat.{◌/◌, ◌%◌}
use hawk_apiserver.Text.{Text, codes, contains}
use hawk_apiserver.Text.Hex.{hex_from}
use hawk_apiserver.Outcome.{Outcome, done, panic}
use hawk_apiserver.Http.{ResponseWriter, Request, get, set_header}
use hawk_apiserver.Server.Env.{Env, Stat, found, not_exist, denied, FileInfo}

-- A file's time is that of Unix, taken to be after 1970; the digits get enough fuel.
unfoldable pub etag : FileInfo → Text
unfolding hex_from
etag info =
    codes "W/\""
    ++ (hex_from (suc info.mod_time) info.mod_time []
        ++ b'-' ∷ (hex_from (suc info.size) info.size [] ++ b'"' ∷ []))

module _ {W : Type 0} ⦃i : ResponseWriter W⦄ (env : Env W) where
  -- Not modified, or the file with its caching headers.
  unfoldable pub send_file : Text → FileInfo → W → Request → W
  unfolding etag
  send_file filename info w r =
      let match = get r.header (codes "If-None-Match") in
      let e = etag info in
      if not (match == []) && contains match e
      then i.write_header 304 w
      else env.serve_file filename r (
          set_header (codes "ETag") e
            (set_header (codes "Cache-Control") (codes "public, max-age=2592000") w))

  -- An error other than os.ErrNotExist leaves `info` nil, and IsDir panics on it.
  unfoldable pub serve_stat : Text → Stat → W → Request → Outcome (W × Bool)
  unfolding send_file
  serve_stat filename not_exist w r = done (w, false)
  serve_stat filename denied w r = panic
  serve_stat filename (found info) w r =
      if not info.is_dir then done (send_file filename info w r, true) else done (w, false)

  unfoldable pub serve_file : Text → W → Request → Outcome (W × Bool)
  unfolding serve_stat
  serve_file target w r =
      let filename = env.clean (target ++ r.url.path) in serve_stat filename (env.stat filename) w r

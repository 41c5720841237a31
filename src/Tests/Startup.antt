-- ===== src/Tests/Startup.antt =====
-- The configuration file, the flags and the first bytes of a connection.
use hawk_apiserver.Prelude.{
  suc, ◌+◌, ◌≡◌, ◌≢◌, refl, ◌↔◌, inr, [], ◌∷◌, ◌++◌, length, replicate, arith,
}
use hawk_apiserver.Text.{Text, codes, count_byte}
use hawk_apiserver.Outcome.{done, panic}
use hawk_apiserver.Server.Env.{Config}
use hawk_apiserver.Config.Offset.{error_lines}
use hawk_apiserver.Config.Offset.Line.{error_lines_lem, error_lines_panic}
use hawk_apiserver.Config.Flags.{Flags, default_config, configure}
use hawk_apiserver.Config.Flags.Precedence.{Prefers, configure_precedence}
use hawk_apiserver.Redirect.{accept, plain, tls_server}
use hawk_apiserver.Redirect.Sniffing.{IsPlain, accept_iff}

abbrev before : Text
before = codes "{\n"

abbrev broken_line : Text
broken_line = codes "x:1"

abbrev behind : Text
behind = codes "\n}"

error_lines_lem_example :
    error_lines (before ++ (broken_line ++ behind)) (length before + suc 1)
    ≡ done (count_byte before 10, broken_line, replicate 1 b' ' ++ b'^' ∷ [])
error_lines_lem_example =
    error_lines_lem before broken_line behind (inr (codes "{", refl))
      (omega arith, (omega arith, (omega arith, tt))) (inr (codes "}", refl)) 1 (omega arith)

error_lines_panic_example : error_lines (before ++ (broken_line ++ behind)) (length before) ≡ panic
error_lines_panic_example =
    error_lines_panic before broken_line behind (inr (codes "{", refl))
      (omega arith, (omega arith, (omega arith, tt))) (inr (codes "}", refl))

accept_iff_example :
    ((accept (codes "GET / ") ≡ plain (codes "GET / ")) ↔ IsPlain (codes "GET / "))
    × ((accept (codes "GET / ") ≡ tls_server (codes "GET / ")) ↔ (¬ IsPlain (codes "GET / ")))
accept_iff_example = accept_iff (codes "GET / ")

abbrev given : Flags
given = record {
  listen = codes "0.0.0.0";
  port = 8080;
  key = codes "/etc/hawk/hawk.key";
  cert = codes "/etc/hawk/hawk.pem";
  log_level = codes "debug";
  config = codes "c.json";
}

abbrev from_file : Text → Config → Config
from_file name c = record c { listen = codes "::1"; port = 99 }

is_given : given.config ≢ []
is_given e = cc

configure_precedence_example :
    Prefers given.listen default_config.listen (codes "::1") (configure from_file given).listen
    × Prefers given.port default_config.port 99 (configure from_file given).port
    × Prefers given.key default_config.key default_config.key (configure from_file given).key
    × Prefers given.cert default_config.cert default_config.cert (configure from_file given).cert
    × Prefers given.log_level default_config.log_level default_config.log_level
        (configure from_file given).log_level
    × ((configure from_file given).route ≡ default_config.route)
configure_precedence_example =
    configure_precedence from_file given (from_file (codes "c.json") default_config) is_given refl

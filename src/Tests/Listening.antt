-- ===== src/Tests/Listening.antt =====
-- main on a host where everything is at hand, with a broken configuration file, and a connection.
use hawk_apiserver.Prelude.{
  ℕ, suc, ◌+◌, ◌≡◌, ◌≢◌, refl, ◌↔◌, ◌⊎◌, inr, [], ◌∷◌, ◌++◌, Option, none, some, length, replicate,
  arith,
}
use hawk_apiserver.Text.{Text, codes, count_byte}
use hawk_apiserver.Http.{Url, Request, Response, send_header}
use hawk_apiserver.Server.Env.{Config}
use hawk_apiserver.Config.File.{runs, exits, contents, Unmarshalled, filled, syntax_error}
use hawk_apiserver.Config.Flags.{Flags, default_config, apply_flags}
use hawk_apiserver.Redirect.Sniffing.{IsPlain}
use hawk_apiserver.Startup.{Host, main, serve_conn}
use hawk_apiserver.Startup.Ready.{Given, Opens, server, main-eq-runs, main-syntax_error}
use hawk_apiserver.Startup.Plain.{redirected, passed, serve_conn_lem}
use hawk_apiserver.Tests.Samples.{get_at, fresh}

abbrev before : Text
before = codes "{\n"

abbrev broken_line : Text
broken_line = codes "x:1"

abbrev behind : Text
behind = codes "\n}"

-- The digit of a number below ten.
abbrev digit : ℕ → Text
digit n = (48 + n) ∷ []

abbrev host_with : Unmarshalled → Host
host_with u = record {
  read_file = λ _. contents (before ++ (broken_line ++ behind));
  unmarshal = λ _ _. u;
  decimal = digit;
  Level = Text;
  info = codes "info";
  parse_level = λ t. some t;
  load_key_pair = λ _ _. none;
  listen = λ _. none;
}

abbrev flags : Flags
flags = record {
  listen = codes "0.0.0.0";
  port = 17630;
  key = codes "/etc/hawk/hawk.key";
  cert = codes "/etc/hawk/hawk.pem";
  log_level = codes "debug";
  config = codes "c.json";
}

abbrev host : Host
host = host_with (filled default_config)

-- The level is the flag's.
abbrev chosen_config : Config
chosen_config = record default_config { log_level = codes "debug" }

main-eq-runs_example : (main host flags ≡ runs (server host chosen_config)) ↔ (
    (file : Config) × Given host flags file
    × Opens host (apply_flags flags file) (server host chosen_config))
main-eq-runs_example = main-eq-runs host flags (server host chosen_config)

is_given : flags.config ≢ []
is_given e = cc

abbrev broken_host : Host
broken_host = host_with (syntax_error (codes "invalid") (length before + suc 1))

main-syntax_error_example :
    main broken_host flags
    ≡ exits (
        (codes "Error in line "
          ++ (digit (count_byte before 10) ++ (codes ": " ++ codes "invalid")))
        ∷ broken_line
        ∷ (replicate 1 b' ' ++ b'^' ∷ [])
        ∷ [])
main-syntax_error_example =
    main-syntax_error broken_host flags before broken_line behind (codes "invalid") 1
      (inr (codes "{", refl)) (omega arith, (omega arith, (omega arith, tt)))
      (inr (codes "}", refl)) is_given refl refl (omega arith)

abbrev pub url_path : Url → Text
url_path u = u.path

abbrev pub redirect_to : Response → Request → Text → ℕ → Response
redirect_to w r t code = send_header code w

abbrev secret : Response → Request → Response
secret w r = send_header 200 w

abbrev asked : Text → Option Request
asked _ = some (get_at (codes "/x"))

serve_conn_lem_example :
    (IsPlain (codes "GET / ")
      × (serve_conn url_path redirect_to asked asked secret (codes "GET / ") fresh
          ≡ redirected url_path redirect_to asked asked (asked (codes "GET / ")) fresh))
    ⊎ ((¬ IsPlain (codes "GET / "))
        × (serve_conn url_path redirect_to asked asked secret (codes "GET / ") fresh
            ≡ passed url_path redirect_to asked asked secret (asked (codes "GET / ")) fresh))
serve_conn_lem_example =
    serve_conn_lem url_path redirect_to asked asked secret (codes "GET / ") fresh

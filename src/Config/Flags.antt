-- ===== src/Config/Flags.antt =====
-- main: the default configuration, the file and the flags. `file` is what parseConfigFile makes of
-- the configuration; without a -config flag it is not called.
pub mod Precedence
use hawk_apiserver.Prelude.{
  ℕ, Bool, true, false, not, List, [], ◌∷◌, Option, none, some, ◌==◌, nat_eq, text_eq,
  if◌then◌else◌,
}
use hawk_apiserver.Text.{Text, codes}
use hawk_apiserver.Server.Env.{Config, ConfigRoute}

-- The values of the flags, given or default.
pub record Flags : Type 0 where
  pub listen : Text
  pub port : ℕ
  pub key : Text
  pub cert : Text
  pub log_level : Text
  pub config : Text

abbrev pub default_config : Config
default_config = record {
  listen = codes "0.0.0.0";
  port = 17630;
  key = codes "/etc/hawk/hawk.key";
  cert = codes "/etc/hawk/hawk.pem";
  log_level = codes "info";
  route = record { handler = codes "api/v1"; path = codes "/api/v1"; target = none } ∷ [];
}

-- A flag that differs from its default takes the place of the value.
unfoldable pub override_text : Text → Text → Text → Text
override_text flag default value = if not (flag == default) then flag else value

unfoldable pub override_nat : ℕ → ℕ → ℕ → ℕ
override_nat flag default value = if not (flag == default) then flag else value

unfoldable pub apply_flags : Flags → Config → Config
unfolding override_text override_nat
apply_flags f c = record c {
  listen = override_text f.listen (codes "0.0.0.0") c.listen;
  port = override_nat f.port 17630 c.port;
  key = override_text f.key (codes "/etc/hawk/hawk.key") c.key;
  cert = override_text f.cert (codes "/etc/hawk/hawk.pem") c.cert;
  log_level = override_text f.log_level (codes "info") c.log_level;
}

unfoldable pub configure : (Text → Config → Config) → Flags → Config
unfolding apply_flags
configure file f =
    apply_flags f (if not (f.config == []) then file f.config default_config else default_config)

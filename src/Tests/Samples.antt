-- ===== src/Tests/Samples.antt =====
-- A request, a response and an environment to run the handlers on.
use hawk_apiserver.Prelude.{Bool, true, false, List, [], ◌∷◌, Option, none, some}
use hawk_apiserver.Text.{Text, codes}
use hawk_apiserver.Http.{Url, Request, Response}
use hawk_apiserver.Cib.{Cib, Configuration, Nodes, Node, Resources, Primitive, Constraints}
use hawk_apiserver.Proxy.Serve.{BackendResponse, chunk, tick}
use hawk_apiserver.Server.Env.{Env, Config, ConfigRoute, RouteHandler, not_exist}

abbrev pub url_at : Text → Url
url_at path = record {
  scheme = [];
  opaque = [];
  user = none;
  host = codes "hawk";
  path = path;
  raw_path = [];
  raw_query = [];
  fragment = [];
}

abbrev pub get_at : Text → Request
get_at path = record {
  method = codes "GET";
  url = url_at path;
  host = codes "hawk";
  header = [];
  tls = true;
  cookies = [];
  basic_auth = none;
}

abbrev pub fresh : Response
fresh = record { header = []; sent = none; body = []; broken = none }

abbrev pub alice : Node
alice = record {
  id = codes "1";
  uname = codes "alice";
  type = [];
  description = [];
  score = [];
  instance_attributes = [];
  utilization = [];
}

abbrev pub disk : Primitive
disk = record {
  id = codes "disk";
  class = [];
  provider = [];
  type = [];
  template = [];
  description = [];
  meta_attributes = [];
  instance_attributes = [];
  operations = none;
  utilization = [];
}

abbrev pub sample_nodes : Nodes
sample_nodes = record { node = alice ∷ []; url_type = []; url_index = 0 }

abbrev pub sample_resources : Resources
sample_resources = record {
  primitive = disk ∷ [];
  template = [];
  group = [];
  clone = [];
  master = [];
  bundle = [];
  url_type = [];
  url_index = 0;
}

abbrev pub sample_constraints : Constraints
sample_constraints = record {
  rsc_location = [];
  rsc_colocation = [];
  rsc_order = [];
  rsc_ticket = [];
  url_type = [];
  url_index = 0;
}

abbrev pub sample_configuration : Configuration
sample_configuration = record {
  crm_config = none;
  rsc_defaults = none;
  op_defaults = none;
  nodes = some sample_nodes;
  resources = some sample_resources;
  constraints = some sample_constraints;
  fencing_topology = none;
  acls = none;
  tags = none;
  alerts = none;
  url_type = [];
}

abbrev pub sample_cib : Cib
sample_cib = record {
  validate_with = [];
  admin_epoch = [];
  epoch = codes "7";
  num_updates = [];
  crm_feature_set = [];
  remote_tls_port = [];
  remote_clear_port = [];
  have_quorum = [];
  dc_uuid = [];
  cib_last_written = [];
  no_quorum_panic = [];
  update_origin = [];
  update_client = [];
  update_user = [];
  execution_date = [];
  configuration = some sample_configuration;
  status = none;
}

abbrev pub sample_unmarshal : Text → Option Cib
sample_unmarshal [] = none
sample_unmarshal (_ ∷ _) = some sample_cib

-- One session is known, and no password is accepted.
abbrev pub sample_sessions : Text → List Text
sample_sessions _ = codes "name=\"hawk_session_bob\" value=\"s1\"" ∷ []

abbrev pub nobody : Text → Text → Bool
nobody _ _ = false

abbrev pub backend : BackendResponse
backend = record {
  status = 200;
  header = (codes "Keep-Alive", codes "3" ∷ []) ∷ [];
  trailer = [];
  body = chunk (codes "ab") ∷ tick ∷ chunk (codes "c") ∷ [];
  final_trailer = [];
}

-- An environment with an answering backend or none.
abbrev pub env_for : (W : Type 0) → Option BackendResponse → Env W
env_for W answer = record {
  unmarshal = sample_unmarshal;
  match_string = λ _ _. true;
  attrd_updater = sample_sessions;
  hawk_chkpwd = nobody;
  parse_url = λ t. some (url_at t);
  url_string = λ u. u.path;
  round_trip = λ _ _. answer;
  stat = λ _. not_exist;
  clean = λ p. p;
  serve_file = λ _ _ w. w;
  handed = some (codes "0:1:3");
}

abbrev pub env_with : Option BackendResponse → Env Response
env_with answer = env_for Response answer

abbrev pub api_route : ConfigRoute
api_route = record { handler = codes "api/v1"; path = codes "/api"; target = none }

abbrev pub proxy_route : ConfigRoute
proxy_route = record { handler = codes "proxy"; path = codes "/"; target = some (codes "/b") }

abbrev pub config_with : List ConfigRoute → Config
config_with routes = record {
  listen = codes "0.0.0.0";
  port = 17630;
  key = [];
  cert = [];
  log_level = codes "info";
  route = routes;
}

abbrev pub handler_with : List ConfigRoute → RouteHandler
handler_with routes = record {
  cib = record { xmldoc = codes "<cib/>"; version = some (codes "0:1:2") };
  config = config_with routes;
  proxies = [];
  next_address = 0;
}

-- ===== src/Boot/Registration/Tests.antt =====
-- The registration of entries at a concrete configuration.
use rk_grpc.Prelude.{
  ℕ, String, ◌≡◌, refl, Bool, true, false, Option, none, some, List, [], ◌∷◌, str_eq, ◌==◌,
  if◌then◌else◌,
}
use rk_grpc.Boot.Integers.{pos}
use rk_grpc.Boot.GrpcWebOptions.{TextLibraries}
use rk_grpc.Middleware.Chain.{MiddlewareConfig}
use rk_grpc.Middleware.Plain.{runtime, key_types}
use rk_grpc.Middleware.Handler.{World, panicked, UnaryHandler, StreamHandler}
use rk_grpc.Middleware.InterceptorTests.{bare_stream, call, sets}
use rk_grpc.Middleware.Chain.Typed.{Answers}
use rk_grpc.Boot.Registration.Answered.{
  entry_handler, entry_stream_handler, configured_entry-Answers,
}
use rk_grpc.Boot.Registration.{GrpcElement, GlobalState, amazon, AppContext, RegisteredEntry}
use rk_grpc.Boot.Registration.Options.{name_or_default}
use rk_grpc.Boot.Registration.Element.{set_error_builder, element_entry, register_grpc_entry_yaml}
use rk_grpc.Boot.Registration.Laws.{entry_of, map_some, last_enabled}
use rk_grpc.Boot.Registration.Configured.{register_grpc_entry_yaml-follows}

-- Entries are texts, a contained entry's configuration is its path, and a certificate is whether it
-- has been read.
abbrev context : AppContext
context = record {
  LoggerEntry = String;
  EventEntry = String;
  CertEntry = Bool;
  Config = Option String;
  MidOption = String;
  get_logger_entry = λ name. none;
  logger_entry_default = "log";
  logger_entry_stdout = "stdout";
  get_event_entry = λ name. none;
  event_entry_default = "events";
  event_entry_stdout = "stdout";
  get_cert_entry = λ name. if str_eq name "cert" then some true else none;
  has_certificate = λ cert. cert;
  register_sw_entry = λ path name. path;
  register_docs_entry = λ path name. path;
  register_prom_entry = λ path. path;
  register_common_service_entry = λ path. none;
  register_static_file_handler_entry = λ path name. path;
  register_pprof_entry = λ path name. path;
  to_cors_options = λ path name. [];
  to_secure_options = λ path name. [];
  to_csrf_options = λ path name. [];
  format_uint = λ n. if n == 8080 then "8080" else "0";
  to_lower = λ s. s;
}

abbrev libraries : TextLibraries
libraries = record {
  split = λ text separator. text ∷ [];
  match_string = λ pattern origin. some true;
}

abbrev no_middleware : MiddlewareConfig
no_middleware = record {
  logging_enabled = true;
  prom_enabled = false;
  trace_enabled = false;
  jwt_enabled = false;
  meta_enabled = false;
  auth_enabled = false;
  timeout_enabled = false;
  rate_limit_enabled = false;
}

abbrev element : String → ℕ → Bool → String → GrpcElement context
element name port enabled model = record {
  name = name;
  description = "";
  port = port;
  gw_port = 0;
  enabled = enabled;
  enable_reflection = false;
  no_recv_msg_size_limit = true;
  common_service = none;
  sw = some "/sw/";
  docs = none;
  prom = none;
  static = none;
  pprof = none;
  proxy_enabled = false;
  proxy_rules = [];
  grpc_web_enabled = false;
  grpc_web = record {
    allow_origins = [];
    websocket_enabled = false;
    ping_interval_ms = pos 0;
    message_read_limit_bytes = pos 0;
  };
  cert_entry = "cert";
  logger_entry = "";
  event_entry = "";
  enable_rk_gw_option = true;
  gw_option = none;
  ignore = "/healthz" ∷ [];
  error_model = model;
  middleware = no_middleware;
  cors_enabled = false;
  cors = none;
  secure_enabled = false;
  secure = none;
  csrf_enabled = false;
  csrf = none;
}

abbrev fresh : GlobalState
fresh = record { added = []; ignored = []; error_builder = none }

-- Two enabled entries of one name, one that is not enabled, and one without a name.
abbrev elements : List (GrpcElement context)
elements =
    element "greeter" 1949 true "amazon"
    ∷ element "greeter" 8080 true "?"
    ∷ element "off" 8081 false "google"
    ∷ element "" 8080 true "?"
    ∷ []

-- The second entry of the name is returned; the context has been given all three, and the builder of
-- the first.
register_grpc_entry_yaml-follows_example :
    let (res, s') = register_grpc_entry_yaml context libraries elements fresh in
    ((name : String)
      → entry_of name res
        ≡ map_some (element_entry context libraries) (last_enabled context libraries name elements))
    × (s'.added ≡ "greeter" ∷ "greeter" ∷ "grpc-8080" ∷ [])
    × (s'.ignored ≡ "/healthz" ∷ "/healthz" ∷ "/healthz" ∷ [])
    × (s'.error_builder ≡ some amazon)
unfolding name_or_default set_error_builder
register_grpc_entry_yaml-follows_example =
    register_grpc_entry_yaml-follows context libraries elements fresh

abbrev no_payloads : World runtime
no_payloads = record { heap = []; headers = []; notes = [] }

abbrev failing_stream : StreamHandler runtime String
failing_stream stream w = (panicked "boom", w)

abbrev failing : UnaryHandler runtime String
failing ctx w = (panicked "boom", w)

configured_entry-Answers_example :
    (e : RegisteredEntry context) × (entry_of "greeter"
        (register_grpc_entry_yaml context libraries elements fresh).0
      ≡ some e)
    × Answers
        (entry_handler context runtime sets call e failing
          (record { payload = none })
          no_payloads).0
    × Answers
        (entry_stream_handler context runtime sets call e failing_stream bare_stream no_payloads).0
configured_entry-Answers_example =
    configured_entry-Answers context libraries key_types "greeter" elements
      (element "greeter" 8080 true "?") fresh refl refl sets call failing failing_stream
      (λ ctx w t. t) (λ stream w t. t) (record { payload = none }) bare_stream no_payloads tt

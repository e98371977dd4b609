-- ===== src/Boot/Registration.antt =====
-- RegisterGrpcEntry and its options, and RegisterGrpcEntryYAML, boot/grpc_entry.go: which entries a
-- configuration gives, with what. The configuration is the decoded one.
pub mod Options
pub mod Element
pub mod Laws
pub mod Expected
pub mod Configured
pub mod Answered
mod Tests
use rk_grpc.Prelude.{ℕ, String, Bool, Option, List}
use rk_grpc.Boot.Entry.{CommonServiceEntry}
use rk_grpc.Boot.Gateway.{MarshalOptions, UnmarshalOptions, GwOption}
use rk_grpc.Boot.GrpcWebOptions.{GrpcWebOption, BootConfigGrpcWeb}
use rk_grpc.Middleware.Chain.{Kind, MiddlewareConfig}
use rk_grpc.Proxy.Config.{RuleConfig}
use rk_grpc.Proxy.Entry.{ProxyEntry}

-- What is used of rk-entry and of Go. The global context's entries for logs, events and
-- certificates, by their names, with its defaults, and those for the standard output. What is
-- registered of the configuration of a contained entry, where it is enabled: its path, or its paths.
-- The options of the middleware of the gateway. `strconv.FormatUint` with base ten, and
-- `strings.ToLower`.
pub record AppContext : Type 1 where
  pub LoggerEntry : Type 0
  pub EventEntry : Type 0
  pub CertEntry : Type 0
  pub Config : Type 0
  pub MidOption : Type 0
  pub get_logger_entry : String → Option LoggerEntry
  pub logger_entry_default : LoggerEntry
  pub logger_entry_stdout : LoggerEntry
  pub get_event_entry : String → Option EventEntry
  pub event_entry_default : EventEntry
  pub event_entry_stdout : EventEntry
  pub get_cert_entry : String → Option CertEntry
  pub has_certificate : CertEntry → Bool
  pub register_sw_entry : Config → String → Option String
  pub register_docs_entry : Config → String → Option String
  pub register_prom_entry : Config → Option String
  pub register_common_service_entry : Config → Option CommonServiceEntry
  pub register_static_file_handler_entry : Config → String → Option String
  pub register_pprof_entry : Config → String → Option String
  pub to_cors_options : Config → String → List MidOption
  pub to_secure_options : Config → String → List MidOption
  pub to_csrf_options : Config → String → List MidOption
  pub format_uint : ℕ → String
  pub to_lower : String → String

-- The options for messages, of the server and of the gateway's connection to it.
pub data SizeOption : Type 0 where
  max_recv_msg_size : ℕ → SizeOption
  default_call_options : ℕ → ℕ → SizeOption

-- The options of the gateway's mux: the JSON marshaler for every type, or what NewRkGwServerMuxOptions
-- makes of the two.
pub data MuxOption : Type 0 where
  json_marshaler : MarshalOptions → UnmarshalOptions → MuxOption
  rk_gw_server_mux_options : MarshalOptions → UnmarshalOptions → MuxOption

-- `GrpcEntry`, the fields that its registration sets. An interceptor is its middleware, with the name
-- of the entry that its options have.
pub record RegisteredEntry (X : AppContext) : Type 0 where
  pub entry_name : String
  pub entry_type : String
  pub entry_description : String
  pub logger_entry : X.LoggerEntry
  pub event_entry : X.EventEntry
  pub port : ℕ
  pub gw_port : ℕ
  pub has_tls_config : Bool
  pub server_opts : List SizeOption
  pub unary_interceptors : List (Kind × String)
  pub stream_interceptors : List (Kind × String)
  pub enable_reflection : Bool
  pub grpc_web_options : List GrpcWebOption
  pub gw_mux_options : List MuxOption
  pub gw_dial_options : List SizeOption
  pub gw_cors_options : List X.MidOption
  pub gw_secure_options : List X.MidOption
  pub gw_csrf_options : List X.MidOption
  pub sw_entry : Option String
  pub docs_entry : Option String
  pub prom_entry : Option String
  pub static_file_entry : Option String
  pub common_service_entry : Option CommonServiceEntry
  pub pprof_entry : Option String
  pub proxy_entry : Option (ProxyEntry X.LoggerEntry X.EventEntry)
  pub cert_entry : Option X.CertEntry

-- An element of `BootConfig.Grpc`.
pub record GrpcElement (X : AppContext) : Type 0 where
  pub name : String
  pub description : String
  pub port : ℕ
  pub gw_port : ℕ
  pub enabled : Bool
  pub enable_reflection : Bool
  pub no_recv_msg_size_limit : Bool
  pub common_service : X.Config
  pub sw : X.Config
  pub docs : X.Config
  pub prom : X.Config
  pub static : X.Config
  pub pprof : X.Config
  pub proxy_enabled : Bool
  pub proxy_rules : List RuleConfig
  pub grpc_web_enabled : Bool
  pub grpc_web : BootConfigGrpcWeb
  pub cert_entry : String
  pub logger_entry : String
  pub event_entry : String
  pub enable_rk_gw_option : Bool
  pub gw_option : Option GwOption
  pub ignore : List String
  pub error_model : String
  pub middleware : MiddlewareConfig
  pub cors_enabled : Bool
  pub cors : X.Config
  pub secure_enabled : Bool
  pub secure : X.Config
  pub csrf_enabled : Bool
  pub csrf : X.Config

-- What the registration changes beside the entries: the names of the entries that the global context
-- is given, the paths that all middleware is to ignore, and the builder of all errors, once it is set.
pub data ErrorBuilder : Type 0 where
  google : ErrorBuilder
  amazon : ErrorBuilder

pub record GlobalState : Type 0 where
  pub added : List String
  pub ignored : List String
  pub error_builder : Option ErrorBuilder

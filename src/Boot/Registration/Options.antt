-- ===== src/Boot/Registration/Options.antt =====
-- RegisterGrpcEntry and the options that RegisterGrpcEntryYAML gives it, boot/grpc_entry.go.
use rk_grpc.Prelude.{
  ℕ, String, Bool, true, false, Option, none, some, List, [], ◌∷◌, ◌++◌, str_eq, if◌then◌else◌,
}
use Prim.Native.String
use rk_grpc.Boot.Entry.{CommonServiceEntry}
use rk_grpc.Boot.GrpcWebOptions.{GrpcWebOption}
use rk_grpc.Proxy.Entry.{ProxyEntry}
use rk_grpc.Boot.Registration.{AppContext, SizeOption, MuxOption, RegisteredEntry}

abbrev pub grpc_entry_type : String
grpc_entry_type = "gRPCEntry"

abbrev pub GrpcEntryOption : AppContext → Type 0
GrpcEntryOption X = RegisteredEntry X → RegisteredEntry X

module _ {X : AppContext} where
  unfoldable pub with_name : String → GrpcEntryOption X
  with_name name entry = record entry { entry_name = name }

  unfoldable pub with_description : String → GrpcEntryOption X
  with_description description entry = record entry { entry_description = description }

  unfoldable pub with_logger_entry : X.LoggerEntry → GrpcEntryOption X
  with_logger_entry logger entry = record entry { logger_entry = logger }

  unfoldable pub with_event_entry : X.EventEntry → GrpcEntryOption X
  with_event_entry events entry = record entry { event_entry = events }

  unfoldable pub with_port : ℕ → GrpcEntryOption X
  with_port port entry = record entry { port = port }

  unfoldable pub with_gw_port : ℕ → GrpcEntryOption X
  with_gw_port gw_port entry = record entry { gw_port = gw_port }

  unfoldable pub with_grpc_dial_options : List SizeOption → GrpcEntryOption X
  with_grpc_dial_options opts entry = record entry {
    gw_dial_options = entry.gw_dial_options ++ opts;
  }

  unfoldable pub with_sw_entry : Option String → GrpcEntryOption X
  with_sw_entry sw entry = record entry { sw_entry = sw }

  unfoldable pub with_docs_entry : Option String → GrpcEntryOption X
  with_docs_entry docs entry = record entry { docs_entry = docs }

  unfoldable pub with_prom_entry : Option String → GrpcEntryOption X
  with_prom_entry prom entry = record entry { prom_entry = prom }

  unfoldable pub with_proxy_entry :
      Option (ProxyEntry X.LoggerEntry X.EventEntry) → GrpcEntryOption X
  with_proxy_entry proxy entry = record entry { proxy_entry = proxy }

  unfoldable pub with_gw_mux_options : List MuxOption → GrpcEntryOption X
  with_gw_mux_options opts entry = record entry { gw_mux_options = entry.gw_mux_options ++ opts }

  unfoldable pub with_grpc_web_options : List GrpcWebOption → GrpcEntryOption X
  with_grpc_web_options opts entry = record entry {
    grpc_web_options = entry.grpc_web_options ++ opts;
  }

  unfoldable pub with_common_service_entry : Option CommonServiceEntry → GrpcEntryOption X
  with_common_service_entry service entry = record entry { common_service_entry = service }

  unfoldable pub with_static_file_handler_entry : Option String → GrpcEntryOption X
  with_static_file_handler_entry files entry = record entry { static_file_entry = files }

  unfoldable pub with_cert_entry : Option X.CertEntry → GrpcEntryOption X
  with_cert_entry cert entry = record entry { cert_entry = cert }

  unfoldable pub with_pprof_entry : Option String → GrpcEntryOption X
  with_pprof_entry pprof entry = record entry { pprof_entry = pprof }

  unfoldable pub with_enable_reflection : Bool → GrpcEntryOption X
  with_enable_reflection enabled entry = record entry { enable_reflection = enabled }

  -- `for i := range opts { opts[i](entry) }`
  unfoldable pub apply_entry_options : List (GrpcEntryOption X) → GrpcEntryOption X
  apply_entry_options [] entry = entry
  apply_entry_options (o ∷ os) entry = apply_entry_options os (o entry)

module _ (X : AppContext) where
  -- `&GrpcEntry{…}`
  unfoldable pub default_entry : RegisteredEntry X
  default_entry = record {
    entry_name = "";
    entry_type = grpc_entry_type;
    entry_description = "Internal RK entry which helps to bootstrap with Grpc framework.";
    logger_entry = X.logger_entry_default;
    event_entry = X.event_entry_default;
    port = 8080;
    gw_port = 0;
    has_tls_config = false;
    server_opts = [];
    unary_interceptors = [];
    stream_interceptors = [];
    enable_reflection = true;
    grpc_web_options = [];
    gw_mux_options = [];
    gw_dial_options = [];
    gw_cors_options = [];
    gw_secure_options = [];
    gw_csrf_options = [];
    sw_entry = none;
    docs_entry = none;
    prom_entry = none;
    static_file_entry = none;
    common_service_entry = none;
    pprof_entry = none;
    proxy_entry = none;
    cert_entry = none;
  }

  -- The name of an entry that has none.
  unfoldable pub name_or_default : String → ℕ → String
  name_or_default name port =
      if str_eq name "" then String.◌++◌ "grpc-" (X.format_uint port) else name

  unfoldable pub is_tls_enabled : RegisteredEntry X → Bool
  is_tls_enabled entry = elim (entry.cert_entry) [
    | none ↦ false
    | some cert ↦ X.has_certificate cert
  ]

  -- Up to the registration with the global context.
  unfoldable pub register_grpc_entry : List (GrpcEntryOption X) → RegisteredEntry X
  unfolding default_entry apply_entry_options name_or_default is_tls_enabled
  register_grpc_entry opts =
      let entry = apply_entry_options opts default_entry in
      record entry {
        entry_name = name_or_default entry.entry_name entry.port;
        has_tls_config = is_tls_enabled entry;
      }

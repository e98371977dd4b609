-- ===== src/Boot/Registration/Element.antt =====
-- RegisterGrpcEntryYAML, boot/grpc_entry.go: the loop over the elements of the configuration.
use rk_grpc.Prelude.{
  ℕ, String, Bool, Option, none, some, List, [], ◌∷◌, ◌++◌, map, str_eq, if◌then◌else◌,
}
use rk_grpc.Boot.Gateway.{
  to_marshal_options, to_unmarshal_options, merge_with_rk_gw_marshal_option,
  merge_with_rk_gw_unmarshal_option,
}
use rk_grpc.Boot.GrpcWebOptions.{GrpcWebOption, TextLibraries, to_grpc_web_options}
use rk_grpc.Middleware.Chain.{Kind, panics, unary_interceptors}
use rk_grpc.Proxy.Config.{configured_rule}
use rk_grpc.Proxy.Entry.{
  ProxyEntry, with_name_proxy, with_event_entry_proxy, with_logger_entry_proxy, with_rule_proxy,
  new_proxy_entry,
}
use rk_grpc.Boot.Registration.{
  AppContext, max_recv_msg_size, default_call_options, MuxOption, json_marshaler,
  rk_gw_server_mux_options, RegisteredEntry, GrpcElement, GlobalState, ErrorBuilder, google, amazon,
}
use rk_grpc.Boot.Registration.Options.{
  with_name, with_description, with_logger_entry, with_event_entry, with_port, with_gw_port,
  with_grpc_dial_options, with_sw_entry, with_docs_entry, with_prom_entry, with_proxy_entry,
  with_gw_mux_options, with_grpc_web_options, with_common_service_entry,
  with_static_file_handler_entry, with_cert_entry, with_pprof_entry, with_enable_reflection,
  register_grpc_entry,
}

-- `math.MaxInt64`
abbrev pub max_int64 : ℕ
max_int64 = 9223372036854775807

-- `if x == nil { x = default }`
unfoldable pub or_else : {A : Type 0} → Option A → A → A
or_else none a = a
or_else (some b) a = b

-- The middleware of an interceptor with the name that its options have: the entry's own for the panic
-- interceptor, and the configured one for the others.
unfoldable pub named : String → String → Kind → Kind × String
named entry_name element_name panics = (panics, entry_name)
named entry_name element_name k = (k, element_name)

-- `switch strings.ToLower(element.Middleware.ErrorModel)`
unfoldable pub set_error_builder : String → Option ErrorBuilder → Option ErrorBuilder
set_error_builder model builder =
    if str_eq model ""
    then some google
    else if str_eq model "google"
    then some google
    else if str_eq model "amazon"
    then some amazon
    else builder

module _ (X : AppContext) (T : TextLibraries) where
  -- `var proxy *ProxyEntry`, and what it becomes
  unfoldable pub element_proxy :
      GrpcElement X → X.LoggerEntry → X.EventEntry → Option (ProxyEntry X.LoggerEntry X.EventEntry)
  unfolding new_proxy_entry configured_rule
  element_proxy element logger events =
      if element.proxy_enabled
      then some (
          new_proxy_entry X.logger_entry_stdout X.event_entry_stdout (
            with_name_proxy element.name
            ∷ with_event_entry_proxy (some events)
            ∷ with_logger_entry_proxy (some logger)
            ∷ with_rule_proxy (configured_rule element.proxy_rules)
            ∷ []))
      else none

  -- `gwMuxOpts`
  unfoldable pub element_mux_options : GrpcElement X → List MuxOption
  element_mux_options element =
      if element.enable_rk_gw_option
      then rk_gw_server_mux_options (merge_with_rk_gw_marshal_option element.gw_option)
          (merge_with_rk_gw_unmarshal_option element.gw_option)
        ∷ []
      else json_marshaler (to_marshal_options element.gw_option)
          (to_unmarshal_options element.gw_option)
        ∷ []

  -- `opt`
  unfoldable pub element_grpc_web_options : GrpcElement X → List GrpcWebOption
  element_grpc_web_options element =
      if element.grpc_web_enabled then to_grpc_web_options T element.grpc_web else []

  -- The lines up to the call of RegisterGrpcEntry, and the call.
  unfoldable pub element_registered : GrpcElement X → RegisteredEntry X
  unfolding or_else register_grpc_entry element_proxy element_mux_options element_grpc_web_options
  element_registered element =
      let logger = or_else (X.get_logger_entry element.logger_entry) X.logger_entry_default in
      let events = or_else (X.get_event_entry element.event_entry) X.event_entry_default in
      let cert = X.get_cert_entry element.cert_entry in
      register_grpc_entry X (
        with_name element.name
        ∷ with_description element.description
        ∷ with_logger_entry logger
        ∷ with_event_entry events
        ∷ with_port element.port
        ∷ with_gw_port element.gw_port
        ∷ with_grpc_dial_options []
        ∷ with_sw_entry (X.register_sw_entry element.sw element.name)
        ∷ with_docs_entry (X.register_docs_entry element.docs element.name)
        ∷ with_prom_entry (X.register_prom_entry element.prom)
        ∷ with_proxy_entry (element_proxy element logger events)
        ∷ with_gw_mux_options (element_mux_options element)
        ∷ with_grpc_web_options (element_grpc_web_options element)
        ∷ with_common_service_entry (X.register_common_service_entry element.common_service)
        ∷ with_static_file_handler_entry
            (X.register_static_file_handler_entry element.static element.name)
        ∷ with_cert_entry cert
        ∷ with_pprof_entry (X.register_pprof_entry element.pprof element.name)
        ∷ with_enable_reflection element.enable_reflection
        ∷ with_cert_entry cert
        ∷ [])

  -- `if element.NoRecvMsgSizeLimit { … }`
  unfoldable pub lift_size_limit : Bool → RegisteredEntry X → RegisteredEntry X
  lift_size_limit no_limit entry =
      if no_limit
      then record entry {
        server_opts = entry.server_opts ++ max_recv_msg_size max_int64 ∷ [];
        gw_dial_options = entry.gw_dial_options ++ default_call_options max_int64 max_int64 ∷ [];
      }
      else entry

  -- The interceptors, and the options of the middleware around the gateway.
  unfoldable pub add_middleware : GrpcElement X → RegisteredEntry X → RegisteredEntry X
  unfolding named unary_interceptors
  add_middleware element entry =
      let kinds =
        map (named entry.entry_name element.name) (unary_interceptors element.middleware) in
      record entry {
        unary_interceptors = entry.unary_interceptors ++ kinds;
        stream_interceptors = entry.stream_interceptors ++ kinds;
        gw_cors_options =
            entry.gw_cors_options
            ++ (if element.cors_enabled then X.to_cors_options element.cors element.name else []);
        gw_secure_options =
            entry.gw_secure_options
            ++ (if element.secure_enabled
                then X.to_secure_options element.secure element.name
                else []);
        gw_csrf_options =
            entry.gw_csrf_options
            ++ (if element.csrf_enabled then X.to_csrf_options element.csrf element.name else []);
      }

  -- The entry of an element, as it is after the element's round.
  unfoldable pub element_entry : GrpcElement X → RegisteredEntry X
  unfolding element_registered lift_size_limit add_middleware
  element_entry element =
      add_middleware element
        (lift_size_limit element.no_recv_msg_size_limit (element_registered element))

  -- What the round of an element does to the global context.
  unfoldable pub element_state : GrpcElement X → GlobalState → GlobalState
  unfolding element_registered set_error_builder
  element_state element s = record {
    added = s.added ++ (element_registered element).entry_name ∷ [];
    ignored = s.ignored ++ element.ignore;
    error_builder = set_error_builder (X.to_lower element.error_model) s.error_builder;
  }

  -- `res[name] = entry`
  unfoldable pub put_entry :
      String
      → RegisteredEntry X
      → List (String × RegisteredEntry X)
      → List (String × RegisteredEntry X)
  put_entry name entry [] = (name, entry) ∷ []
  put_entry name entry ((n, e) ∷ res) =
      if str_eq n name then (n, entry) ∷ res else (n, e) ∷ put_entry name entry res

  unfoldable pub register_elements :
      List (GrpcElement X)
      → List (String × RegisteredEntry X)
      → GlobalState
      → List (String × RegisteredEntry X) × GlobalState
  unfolding put_entry element_entry element_state
  register_elements [] res s = (res, s)
  register_elements (element ∷ elements) res s =
      let added = put_entry element.name (element_entry element) res in
      let others = register_elements elements in
      if element.enabled then others added (element_state element s) else others res s

  unfoldable pub register_grpc_entry_yaml :
      List (GrpcElement X) → GlobalState → List (String × RegisteredEntry X) × GlobalState
  unfolding register_elements
  register_grpc_entry_yaml elements s = register_elements elements [] s

-- ===== src/Boot/Registration/Expected.antt =====
-- What an entry of the gRPC server has of its element of the configuration, field by field, beside
-- the code of boot/grpc_entry.go that makes it.
use rk_grpc.Prelude.{◌≡◌, some, none, [], ◌∷◌, map, if◌then◌else◌}
use rk_grpc.Boot.GrpcWebOptions.{TextLibraries, to_grpc_web_options}
use rk_grpc.Boot.Gateway.{
  to_marshal_options, to_unmarshal_options, merge_with_rk_gw_marshal_option,
  merge_with_rk_gw_unmarshal_option,
}
use rk_grpc.Middleware.Chain.Order.{all_kinds, enabled_of}
use rk_grpc.Proxy.Config.{configured_rule}
use rk_grpc.Proxy.Entry.{ProxyEntry, proxy_entry_type}
use rk_grpc.Boot.Registration.{
  max_recv_msg_size, default_call_options, json_marshaler, rk_gw_server_mux_options, GrpcElement,
  AppContext, RegisteredEntry,
}
use rk_grpc.Boot.Registration.Options.{grpc_entry_type, is_tls_enabled}
use rk_grpc.Boot.Registration.Element.{max_int64, or_else}

module _ (X : AppContext) (T : TextLibraries) where
  -- The logger and the events of an entry: those of the names in its element, or the default ones.
  abbrev pub logger_of : GrpcElement X → X.LoggerEntry
  logger_of el = or_else (X.get_logger_entry el.logger_entry) X.logger_entry_default

  abbrev pub events_of : GrpcElement X → X.EventEntry
  events_of el = or_else (X.get_event_entry el.event_entry) X.event_entry_default

  -- The proxy of an entry, over the rules of its element.
  abbrev pub proxy_of : GrpcElement X → ProxyEntry X.LoggerEntry X.EventEntry
  proxy_of el = record {
    entry_name = el.name;
    entry_type = proxy_entry_type;
    entry_description = "Internal RK entry which implements proxy with Grpc framework.";
    logger_entry = some (logger_of el);
    event_entry = some (events_of el);
    r = some (configured_rule el.proxy_rules);
  }

  -- The contained entries of an entry, each made of its part of the element.
  abbrev pub HasContained : GrpcElement X → RegisteredEntry X → Type 0
  HasContained el e =
      (e.sw_entry ≡ X.register_sw_entry el.sw el.name)
      × (e.docs_entry ≡ X.register_docs_entry el.docs el.name)
      × (e.prom_entry ≡ X.register_prom_entry el.prom)
      × (e.static_file_entry ≡ X.register_static_file_handler_entry el.static el.name)
      × (e.common_service_entry ≡ X.register_common_service_entry el.common_service)
      × (e.pprof_entry ≡ X.register_pprof_entry el.pprof el.name)
      × (e.proxy_entry ≡ (if el.proxy_enabled then some (proxy_of el) else none))

  -- The options of the gateway and of the gRPC servers.
  abbrev pub HasOptions : GrpcElement X → RegisteredEntry X → Type 0
  HasOptions el e =
      (e.gw_mux_options ≡ (
        if el.enable_rk_gw_option
        then rk_gw_server_mux_options (merge_with_rk_gw_marshal_option el.gw_option)
            (merge_with_rk_gw_unmarshal_option el.gw_option)
          ∷ []
        else json_marshaler (to_marshal_options el.gw_option) (to_unmarshal_options el.gw_option)
          ∷ []))
      × (e.grpc_web_options
          ≡ (if el.grpc_web_enabled then to_grpc_web_options T el.grpc_web else []))
      × (e.server_opts
          ≡ (if el.no_recv_msg_size_limit then max_recv_msg_size max_int64 ∷ [] else []))
      × (e.gw_dial_options ≡ (
          if el.no_recv_msg_size_limit then default_call_options max_int64 max_int64 ∷ [] else []))
      × (e.gw_cors_options ≡ (if el.cors_enabled then X.to_cors_options el.cors el.name else []))
      × (e.gw_secure_options
          ≡ (if el.secure_enabled then X.to_secure_options el.secure el.name else []))
      × (e.gw_csrf_options ≡ (if el.csrf_enabled then X.to_csrf_options el.csrf el.name else []))

  -- What an entry has of its element.
  abbrev pub IsConfigured : GrpcElement X → RegisteredEntry X → Type 0
  IsConfigured el e =
      (e.entry_name ≡ el.name)
      × (e.entry_type ≡ grpc_entry_type)
      × (e.entry_description ≡ el.description)
      × (e.logger_entry ≡ logger_of el)
      × (e.event_entry ≡ events_of el)
      × (e.port ≡ el.port)
      × (e.gw_port ≡ el.gw_port)
      × (e.enable_reflection ≡ el.enable_reflection)
      × (e.cert_entry ≡ X.get_cert_entry el.cert_entry)
      × (e.has_tls_config ≡ is_tls_enabled X e)
      × HasContained el e
      × HasOptions el e
      × (e.unary_interceptors ≡ map (λ k. (k, el.name)) (enabled_of el.middleware all_kinds))
      × (e.stream_interceptors ≡ map (λ k. (k, el.name)) (enabled_of el.middleware all_kinds))

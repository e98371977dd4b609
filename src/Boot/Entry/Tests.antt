-- ===== src/Boot/Entry/Tests.antt =====
-- An entry with every part, bootstrapped and interrupted.
use Prim.Native.String
use rk_grpc.Prelude.{String, true, false, ◌≡◌, refl, ◌≢◌, none, some, [], ◌∷◌, ◌++◌}
use rk_grpc.Boot.Entry.{
  sw, docs, static_file, prom, common_service, pprof, proxy, Handler, prom_handler, GrpcEntry,
  CommonServiceEntry, EntryState, BootResult, ok, panics, shuts_down, h2c_handler, csrf_interceptor,
  cors_interceptor, bootstrapped, interrupted, http_shut_down, server_stopped, entry_removed,
}
use rk_grpc.Boot.Entry.Statements.{
  statements, http_statements, http_handler, proxy_statements, sw_statements, docs_statements,
  static_file_statements, prom_statements, common_service_statements, pprof_statements, bootstrap,
  interrupt,
}
use rk_grpc.Boot.Entry.Running.{exact_match}
use rk_grpc.Boot.Entry.Serving.{Configured, at_prom, bootstrap-serves}
use rk_grpc.Boot.Entry.Life.{enabled_calls, bootstrap-then_interrupt}

abbrev join : String → String → String
join path name = String.◌++◌ path (String.◌++◌ "/" name)

abbrev service : CommonServiceEntry
service = record {
  ready_path = "/rk/v1/ready";
  gc_path = "/rk/v1/gc";
  info_path = "/rk/v1/info";
  alive_path = "/rk/v1/alive";
}

abbrev grpc_entry : GrpcEntry String
grpc_entry = record {
  port = 8080;
  has_cors_options = true;
  has_secure_options = false;
  has_csrf_options = true;
  has_grpc_web_options = false;
  gw_reg_f = none ∷ [];
  proxy_entry = some "greeter";
  sw_entry = none;
  docs_entry = some "/docs";
  static_file_entry = none;
  prom_entry = some "/metrics";
  common_service_entry = some service;
  pprof_entry = some "/pprof";
}

abbrev registered : EntryState
registered = record {
  server_opts = [];
  gw_port = 0;
  layers = [];
  http_mux = [];
  server = false;
  http_server = false;
  calls = [];
}

-- The state after Bootstrap, or the one before where Bootstrap does not come to its end.
abbrev state_after : BootResult String EntryState → EntryState
state_after (ok s) = s
state_after _ = registered

abbrev running : EntryState
unfolding bootstrap
running = state_after (bootstrap join grpc_entry registered)

bootstraps_all : bootstrap join grpc_entry registered ≡ ok running
unfolding bootstrap statements http_statements http_handler proxy_statements sw_statements
    docs_statements static_file_statements prom_statements common_service_statements
    pprof_statements
bootstraps_all = refl

gateway_port :
    (running.gw_port ≡ 8080)
    × (running.layers ≡ h2c_handler ∷ csrf_interceptor ∷ cors_interceptor ∷ [])
unfolding bootstrap statements http_statements http_handler proxy_statements sw_statements
    docs_statements static_file_statements prom_statements common_service_statements
    pprof_statements
gateway_port = (refl, refl)

twice_metrics :
    bootstrap join (record grpc_entry { docs_entry = some "/metrics" }) registered
    ≡ panics "http: multiple registrations for /metrics"
unfolding bootstrap statements http_statements http_handler proxy_statements sw_statements
    docs_statements static_file_statements prom_statements common_service_statements
    pprof_statements
twice_metrics = refl

refused_gateway :
    bootstrap join (record grpc_entry { gw_reg_f = some "refused" ∷ [] }) registered
    ≡ shuts_down "refused"
unfolding bootstrap statements http_statements http_handler proxy_statements sw_statements
    docs_statements static_file_statements prom_statements common_service_statements
    pprof_statements
refused_gateway = refl

bootstrap-serves_example :
    (exact_match "/metrics" running.http_mux ≡ some prom_handler)
    × ((k : Handler) → Configured join grpc_entry "/metrics" k → k ≡ prom_handler)
    × ((s'' : EntryState) → bootstrap join grpc_entry running ≢ ok s'')
bootstrap-serves_example =
    bootstrap-serves join grpc_entry registered running "/metrics" prom_handler bootstraps_all
      (at_prom "/metrics" refl)

bootstrap-then_interrupt_example :
    (interrupt grpc_entry running).calls
    ≡ []
      ++ enabled_calls grpc_entry bootstrapped
          (proxy ∷ sw ∷ docs ∷ static_file ∷ prom ∷ common_service ∷ [])
      ++ (enabled_calls grpc_entry interrupted
            (common_service ∷ sw ∷ static_file ∷ docs ∷ prom ∷ pprof ∷ [])
          ++ http_shut_down ∷ server_stopped ∷ entry_removed ∷ [])
bootstrap-then_interrupt_example =
    bootstrap-then_interrupt join grpc_entry registered running bootstraps_all

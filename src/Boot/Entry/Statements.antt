-- ===== src/Boot/Entry/Statements.antt =====
-- The statements of Bootstrap and the calls of Interrupt, boot/grpc_entry.go.
use rk_grpc.Prelude.{
  String, Bool, true, false, Option, none, some, List, [], ◌∷◌, ◌++◌, map, if◌then◌else◌,
}
use rk_grpc.Boot.Entry.{
  Component, sw, docs, static_file, prom, common_service, pprof, proxy, gw_mux, config_file,
  file_handler, prom_handler, ready, gc, info, alive, pprof_index, pprof_profile,
  chain_unary_interceptor, chain_stream_interceptor, force_server_codec, unknown_service_handler,
  Layer, cors_interceptor, secure_interceptor, csrf_interceptor, h2c_handler, grpc_web_server,
  GrpcEntry, EntryCall, interrupted, http_shut_down, server_stopped, entry_removed, EntryState,
  BootResult, BootStatement, bootstrap_entry, new_server, register_gw, handle, new_http_server,
  add_server_opts, set_layers, default_gw_port, run_statements,
}

-- `if entry.Is…Enabled() { … }`
unfoldable pub if_enabled : {A B : Type 0} → Option A → (A → List B) → List B
if_enabled none body = []
if_enabled (some entry) body = body entry

abbrev pub not_nil : {A : Type 0} → Option A → Bool
not_nil none = false
not_nil (some a) = true

-- The profiles that have a path of their own.
abbrev pub profiles : List String
profiles =
    "cmdline" ∷ "profile" ∷ "symbol" ∷ "trace" ∷ "allocs" ∷ "block" ∷ "goroutine" ∷ "heap" ∷ "mutex"
    ∷ "threadcreate" ∷ []

module _ {Error : Type 0} (join : String → String → String) (entry : GrpcEntry Error) where
  unfoldable pub proxy_statements : List (BootStatement Error)
  unfolding if_enabled
  proxy_statements = if_enabled entry.proxy_entry (λ name.
      add_server_opts (force_server_codec ∷ unknown_service_handler ∷ [])
      ∷ bootstrap_entry proxy
      ∷ [])

  unfoldable pub sw_statements : List (BootStatement Error)
  unfolding if_enabled
  sw_statements =
      if_enabled entry.sw_entry (λ path. handle path (config_file sw) ∷ bootstrap_entry sw ∷ [])

  unfoldable pub docs_statements : List (BootStatement Error)
  unfolding if_enabled
  docs_statements =
      if_enabled entry.docs_entry
        (λ path. handle path (config_file docs) ∷ bootstrap_entry docs ∷ [])

  unfoldable pub static_file_statements : List (BootStatement Error)
  unfolding if_enabled
  static_file_statements =
      if_enabled entry.static_file_entry
        (λ path. handle path file_handler ∷ bootstrap_entry static_file ∷ [])

  unfoldable pub prom_statements : List (BootStatement Error)
  unfolding if_enabled
  prom_statements =
      if_enabled entry.prom_entry (λ path. handle path prom_handler ∷ bootstrap_entry prom ∷ [])

  unfoldable pub common_service_statements : List (BootStatement Error)
  unfolding if_enabled
  common_service_statements = if_enabled entry.common_service_entry (λ service.
      handle service.ready_path ready
      ∷ handle service.gc_path gc
      ∷ handle service.info_path info
      ∷ handle service.alive_path alive
      ∷ bootstrap_entry common_service
      ∷ [])

  unfoldable pub pprof_statements : List (BootStatement Error)
  unfolding if_enabled
  pprof_statements = if_enabled entry.pprof_entry (λ path.
      handle path pprof_index ∷ map (λ name. handle (join path name) (pprof_profile name)) profiles)

  -- The handler of HttpServer: each interceptor is put around what there is, and the server of
  -- gRPC-Web, in place of h2c, around them all.
  unfoldable pub http_handler : List Layer
  http_handler =
      (if entry.has_grpc_web_options then grpc_web_server ∷ [] else h2c_handler ∷ [])
      ++ (if entry.has_csrf_options then csrf_interceptor ∷ [] else [])
      ++ (if entry.has_secure_options then secure_interceptor ∷ [] else [])
      ++ (if entry.has_cors_options then cors_interceptor ∷ [] else [])

  -- From the registration of "/" on.
  unfoldable pub http_statements : List (BootStatement Error)
  http_statements =
      handle "/" gw_mux ∷ sw_statements
      ++ docs_statements
      ++ static_file_statements
      ++ prom_statements
      ++ common_service_statements
      ++ pprof_statements
      ++ set_layers http_handler ∷ default_gw_port entry.port ∷ new_http_server ∷ []

  unfoldable pub statements : List (BootStatement Error)
  statements =
      add_server_opts (chain_unary_interceptor ∷ chain_stream_interceptor ∷ []) ∷ proxy_statements
      ++ new_server ∷ map register_gw entry.gw_reg_f
      ++ http_statements

  unfoldable pub bootstrap : EntryState → BootResult Error EntryState
  unfolding run_statements
  bootstrap s = run_statements statements s

module _ {Error : Type 0} (entry : GrpcEntry Error) where
  -- IsSWEnabled and its like.
  unfoldable pub is_enabled : Component → Bool
  is_enabled sw = not_nil entry.sw_entry
  is_enabled docs = not_nil entry.docs_entry
  is_enabled static_file = not_nil entry.static_file_entry
  is_enabled prom = not_nil entry.prom_entry
  is_enabled common_service = not_nil entry.common_service_entry
  is_enabled pprof = not_nil entry.pprof_entry
  is_enabled proxy = not_nil entry.proxy_entry

  unfoldable pub interrupt_calls : EntryState → List EntryCall
  unfolding if_enabled
  interrupt_calls s =
      if_enabled entry.common_service_entry (λ e. interrupted common_service ∷ [])
      ++ if_enabled entry.sw_entry (λ e. interrupted sw ∷ [])
      ++ if_enabled entry.static_file_entry (λ e. interrupted static_file ∷ [])
      ++ if_enabled entry.docs_entry (λ e. interrupted docs ∷ [])
      ++ if_enabled entry.prom_entry (λ e. interrupted prom ∷ [])
      ++ if_enabled entry.pprof_entry (λ e. interrupted pprof ∷ [])
      ++ (if s.http_server then http_shut_down ∷ [] else [])
      ++ (if s.server then server_stopped ∷ [] else [])
      ++ entry_removed ∷ []

  unfoldable pub interrupt : EntryState → EntryState
  unfolding interrupt_calls
  interrupt s = record s { calls = s.calls ++ interrupt_calls s }

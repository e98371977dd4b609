-- ===== src/Boot/Entry.antt =====
-- Bootstrap and Interrupt of GrpcEntry, boot/grpc_entry.go: the options of the gRPC server, the paths
-- and the handler of the HTTP server, and the life of the entries that the entry contains. The
-- statements of Bootstrap that change one of these stand in a list, in the code's order; http.ServeMux
-- is the list of what has been registered with it, which refuses the empty pattern and a pattern that
-- it has. GrpcRegF, reflection, the dial options, the log and the listeners have no part here.
pub mod Statements
pub mod Running
pub mod Life
pub mod Serving
mod Tests
use Prim.Native.String
use rk_grpc.Prelude.{
  ℕ, ltb, String, Bool, true, false, Option, none, some, List, [], ◌∷◌, ◌++◌, map, str_eq,
  if◌then◌else◌,
}

-- The entries that a GrpcEntry contains.
pub data Component : Type 0 where
  sw : Component
  docs : Component
  static_file : Component
  prom : Component
  common_service : Component
  pprof : Component
  proxy : Component

-- What serves a path.
pub data Handler : Type 0 where
  gw_mux : Handler
  config_file : Component → Handler
  file_handler : Handler
  prom_handler : Handler
  ready : Handler
  gc : Handler
  info : Handler
  alive : Handler
  pprof_index : Handler
  pprof_profile : String → Handler

pub record CommonServiceEntry : Type 0 where
  pub ready_path : String
  pub gc_path : String
  pub info_path : String
  pub alive_path : String

-- The options that Bootstrap gives the gRPC server.
pub data ServerOption : Type 0 where
  chain_unary_interceptor : ServerOption
  chain_stream_interceptor : ServerOption
  force_server_codec : ServerOption
  unknown_service_handler : ServerOption

-- What the handler of the HTTP server has around HttpMux.
pub data Layer : Type 0 where
  cors_interceptor : Layer
  secure_interceptor : Layer
  csrf_interceptor : Layer
  h2c_handler : Layer
  grpc_web_server : Layer

-- `GrpcEntry`, as far as it is read here: whether it has options for its middleware and for gRPC-Web,
-- what its gateway functions return, and the entries that it contains, by their paths.
pub record GrpcEntry (Error : Type 0) : Type 0 where
  pub port : ℕ
  pub has_cors_options : Bool
  pub has_secure_options : Bool
  pub has_csrf_options : Bool
  pub has_grpc_web_options : Bool
  pub gw_reg_f : List (Option Error)
  pub proxy_entry : Option String
  pub sw_entry : Option String
  pub docs_entry : Option String
  pub static_file_entry : Option String
  pub prom_entry : Option String
  pub common_service_entry : Option CommonServiceEntry
  pub pprof_entry : Option String

-- What an entry does to those that it contains, to its servers and to the global context.
pub data EntryCall : Type 0 where
  bootstrapped : Component → EntryCall
  interrupted : Component → EntryCall
  http_shut_down : EntryCall
  server_stopped : EntryCall
  entry_removed : EntryCall

-- The state of an entry: the options that Bootstrap has added to ServerOpts, GwPort, HttpMux with what
-- is around it in the handler of HttpServer, the outermost first, whether the entry has Server and
-- HttpServer, and its calls so far.
pub record EntryState : Type 0 where
  pub server_opts : List ServerOption
  pub gw_port : ℕ
  pub layers : List Layer
  pub http_mux : List (String × Handler)
  pub server : Bool
  pub http_server : Bool
  pub calls : List EntryCall

-- How Bootstrap ends. ShutdownWithError ends the process.
pub data BootResult (Error A : Type 0) : Type 0 where
  ok : A → BootResult Error A
  panics : String → BootResult Error A
  shuts_down : Error → BootResult Error A

infixl 10 ◌>>=◌
abbrev pub ◌>>=◌ :
    {Error A B : Type 0} → BootResult Error A → (A → BootResult Error B) → BootResult Error B
ok a >>= f = f a
panics message >>= f = panics message
shuts_down err >>= f = shuts_down err

-- The statements of Bootstrap.
pub data BootStatement (Error : Type 0) : Type 0 where
  bootstrap_entry : Component → BootStatement Error
  new_server : BootStatement Error
  register_gw : Option Error → BootStatement Error
  handle : String → Handler → BootStatement Error
  new_http_server : BootStatement Error
  add_server_opts : List ServerOption → BootStatement Error
  set_layers : List Layer → BootStatement Error
  default_gw_port : ℕ → BootStatement Error

unfoldable pub has_pattern : String → List (String × Handler) → Bool
has_pattern pattern [] = false
has_pattern pattern ((p, h) ∷ mux) = if str_eq p pattern then true else has_pattern pattern mux

-- `HttpMux.Handle` and `HttpMux.HandleFunc`, whose handlers are never nil here.
unfoldable pub mux_handle :
    {Error : Type 0}
    → String
    → Handler
    → List (String × Handler)
    → BootResult Error (List (String × Handler))
unfolding has_pattern
mux_handle pattern handler mux =
    if str_eq pattern ""
    then panics "http: invalid pattern"
    else if has_pattern pattern mux
    then panics (String.◌++◌ "http: multiple registrations for " pattern)
    else ok ((pattern, handler) ∷ mux)

unfoldable pub execute :
    {Error : Type 0} → BootStatement Error → EntryState → BootResult Error EntryState
unfolding mux_handle
execute (bootstrap_entry c) s = ok (record s { calls = s.calls ++ bootstrapped c ∷ [] })
execute new_server s = ok (record s { server = true })
execute (register_gw none) s = ok s
execute (register_gw (some err)) s = shuts_down err
execute (handle pattern handler) s = do
  mux ← mux_handle pattern handler s.http_mux
  ok (record s { http_mux = mux })
execute new_http_server s = ok (record s { http_server = true })
execute (add_server_opts opts) s = ok (record s { server_opts = s.server_opts ++ opts })
execute (set_layers layers) s = ok (record s { layers = layers })
execute (default_gw_port port) s =
    ok (record s { gw_port = if ltb s.gw_port 1 then port else s.gw_port })

unfoldable pub run_statements :
    {Error : Type 0} → List (BootStatement Error) → EntryState → BootResult Error EntryState
unfolding execute
run_statements [] s = ok s
run_statements (st ∷ sts) s = do s' ← execute st s; run_statements sts s'

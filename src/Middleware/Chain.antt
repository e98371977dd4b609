-- ===== src/Middleware/Chain.antt =====
-- The chains of interceptors that RegisterGrpcEntryYAML, boot/grpc_entry.go, builds from the
-- configuration. Bootstrap hands them to grpc.ChainUnaryInterceptor and grpc.ChainStreamInterceptor,
-- by which the first interceptor of the list is the outermost.
pub mod Recovery
pub mod Keeps
pub mod Interceptors
pub mod Guards
pub mod Typed
pub mod Answered
pub mod Refused
pub mod Order
use rk_grpc.Prelude.{String, Bool, true, false, List, [], ◌∷◌, ◌++◌, map, if◌then◌else◌}
use rk_grpc.Middleware.Access.{Runtime}
use rk_grpc.Boot.ErrorWrapper.{StatusPackage}
use rk_grpc.Middleware.Info.{Paths}
use rk_grpc.Middleware.Log
use rk_grpc.Middleware.Log.{Call, LogSet}
use rk_grpc.Middleware.Panic
use rk_grpc.Middleware.Prom.{prom_interceptor, prom_stream_interceptor}
use rk_grpc.Middleware.Guard.{
  HeaderNames, AuthSet, LimitSet, MetaSet, auth_interceptor, ratelimit_interceptor,
  meta_interceptor, auth_stream_interceptor, ratelimit_stream_interceptor, meta_stream_interceptor,
}
use rk_grpc.Middleware.Jwt.{JwtSet, jwt_interceptor, jwt_stream_interceptor}
use rk_grpc.Middleware.Trace.{TraceSet, trace_interceptor, trace_stream_interceptor}
use rk_grpc.Middleware.Timeout.{TimeoutSet, timeout_interceptor, timeout_stream_interceptor}
use rk_grpc.Middleware.Handler.{UnaryHandler, Interceptor, StreamHandler}

-- The middleware that adds interceptors, each a unary and a stream one.
pub data Kind : Type 0 where
  logging : Kind
  panics : Kind
  prom : Kind
  trace : Kind
  jwt : Kind
  meta : Kind
  auth : Kind
  timeout : Kind
  rate_limit : Kind

-- `element.Middleware`, the flags of its parts that add interceptors.
pub record MiddlewareConfig : Type 0 where
  pub logging_enabled : Bool
  pub prom_enabled : Bool
  pub trace_enabled : Bool
  pub jwt_enabled : Bool
  pub meta_enabled : Bool
  pub auth_enabled : Bool
  pub timeout_enabled : Bool
  pub rate_limit_enabled : Bool

-- `if enabled { entry.AddUnaryInterceptors(…); entry.AddStreamInterceptors(…) }`
unfoldable pub add_if : Bool → Kind → List Kind → List Kind
add_if enabled k kinds = if enabled then kinds ++ k ∷ [] else kinds

-- The order of the unary interceptors, and of the stream ones.
unfoldable pub unary_interceptors : MiddlewareConfig → List Kind
unfolding add_if
unary_interceptors m =
    let with_logging = add_if m.logging_enabled logging [] in
    let with_panics = with_logging ++ panics ∷ [] in
    let with_prom = add_if m.prom_enabled prom with_panics in
    let with_trace = add_if m.trace_enabled trace with_prom in
    let with_jwt = add_if m.jwt_enabled jwt with_trace in
    let with_meta = add_if m.meta_enabled meta with_jwt in
    let with_auth = add_if m.auth_enabled auth with_meta in
    let with_timeout = add_if m.timeout_enabled timeout with_auth in
    add_if m.rate_limit_enabled rate_limit with_timeout

-- `grpc.ChainUnaryInterceptor` and `grpc.ChainStreamInterceptor`
unfoldable pub chain : {H : Type 0} → List (H → H) → H → H
chain [] handler = handler
chain (i ∷ is) handler = i (chain is handler)

-- The option sets of the interceptors, with the entry's name.
pub record Sets (R : Runtime) : Type 1 where
  pub Token : Type 0
  pub paths : Paths
  pub header_names : HeaderNames
  pub canonical : String → String
  pub statuses : StatusPackage R.Error
  pub entry_name : String
  pub log_set : LogSet R
  pub trace_set : TraceSet R
  pub jwt_set : JwtSet Token
  pub meta_set : MetaSet R
  pub auth_set : AuthSet
  pub timeout_set : TimeoutSet R
  pub limit_set : LimitSet

module _ (R : Runtime) {A : Type 0} (s : Sets R) (call : Call) where
  -- The token is for the service's handler, which may do with it what it likes.
  unfoldable pub interceptor_of : Kind → Interceptor R A
  interceptor_of logging = Log.unary_server_interceptor R s.paths s.log_set call
  interceptor_of panics = Panic.unary_server_interceptor R s.entry_name
  interceptor_of prom = prom_interceptor R s.paths s.entry_name call
  interceptor_of trace = trace_interceptor R s.statuses s.paths s.trace_set call
  interceptor_of jwt =
      λ handler. jwt_interceptor s.canonical R s.statuses s.jwt_set call (λ token. handler)
  interceptor_of meta = meta_interceptor R s.meta_set call
  interceptor_of auth = auth_interceptor R s.statuses s.header_names s.auth_set call
  interceptor_of timeout = timeout_interceptor R s.statuses s.timeout_set call
  interceptor_of rate_limit = ratelimit_interceptor R s.statuses s.limit_set call

  unfoldable pub stream_interceptor_of : Kind → StreamHandler R A → StreamHandler R A
  stream_interceptor_of logging = Log.stream_server_interceptor R s.paths s.log_set call
  stream_interceptor_of panics = Panic.stream_server_interceptor R s.entry_name
  stream_interceptor_of prom = prom_stream_interceptor R s.paths s.entry_name call
  stream_interceptor_of trace = trace_stream_interceptor R s.statuses s.paths s.trace_set call
  stream_interceptor_of jwt =
      λ handler. jwt_stream_interceptor s.canonical R s.statuses s.jwt_set call (λ token. handler)
  stream_interceptor_of meta = meta_stream_interceptor R s.meta_set call
  stream_interceptor_of auth = auth_stream_interceptor R s.statuses s.header_names s.auth_set call
  stream_interceptor_of timeout = timeout_stream_interceptor R s.statuses s.timeout_set call
  stream_interceptor_of rate_limit = ratelimit_stream_interceptor R s.statuses s.limit_set call

  -- The handlers that the server calls for a unary method and for a stream.
  unfoldable pub registered_handler : MiddlewareConfig → UnaryHandler R A → UnaryHandler R A
  unfolding chain interceptor_of unary_interceptors
  registered_handler m handler = chain (map interceptor_of (unary_interceptors m)) handler

  unfoldable pub registered_stream_handler :
      MiddlewareConfig → StreamHandler R A → StreamHandler R A
  unfolding chain stream_interceptor_of unary_interceptors
  registered_stream_handler m handler =
      chain (map stream_interceptor_of (unary_interceptors m)) handler

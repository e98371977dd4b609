-- ===== src/Middleware/Prom.antt =====
-- The interceptors of middleware/prom/server_interceptor.go. The labels are what the option
-- set of rk-entry is given before the call; the metrics of the call are a note.
use rk_grpc.Prelude.{String, List, [], ◌∷◌}
use rk_grpc.Middleware.Address.{or_nil}
use rk_grpc.Middleware.Access.{Runtime}
use rk_grpc.Middleware.Info.{Paths, get_gw_info, get_grpc_info}
use rk_grpc.Middleware.Log.{Call}
use rk_grpc.Middleware.Handler.{
  World, call_measured, Handled, returned, panicked, Interceptor, StreamHandler, wrapped_stream,
  enter, note,
}

-- GrpcService, GrpcMethod, GrpcType, RestPath and RestMethod of `beforeCtx.Input`.
unfoldable pub prom_labels : Paths → String → Call → List String
prom_labels P grpc_type call =
    let (grpc_service, grpc_method) = get_grpc_info P call.full_method in
    let gw = get_gw_info (or_nil call.incoming.metadata) in
    grpc_service ∷ grpc_method ∷ grpc_type ∷ gw.path ∷ gw.method ∷ []

module _ (R : Runtime) {A : Type 0} where
  -- What follows the handler. It is not deferred.
  unfoldable pub measure_call : List String → Handled R A × World R → Handled R A × World R
  unfolding note
  measure_call labels (returned resp err, w) =
      (returned resp err, note R (call_measured labels (R.status_code err)) w)
  measure_call labels (panicked recv, w) = (panicked recv, w)

  unfoldable pub prom_interceptor : Paths → String → Call → Interceptor R A
  unfolding enter measure_call prom_labels
  prom_interceptor P entry_name call handler ctx w =
      let (wrapped, w') = enter R entry_name ctx w in
      measure_call (prom_labels P "UnaryServer" call) (handler wrapped w')

  unfoldable pub prom_stream_interceptor :
      Paths → String → Call → StreamHandler R A → StreamHandler R A
  unfolding enter measure_call prom_labels
  prom_stream_interceptor P entry_name call handler stream w =
      let (wrapped, w') = enter R entry_name stream.context w in
      measure_call (prom_labels P "StreamServer" call) (handler (wrapped_stream wrapped) w')

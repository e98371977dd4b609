-- ===== src/Middleware/Panic.antt =====
-- The interceptors of middleware/panic/interceptor.go.
pub mod Laws
use rk_grpc.Prelude.{String, Bool, true, false, Option, none, some}
use rk_grpc.Middleware.Payload.{Context}
use rk_grpc.Middleware.Access.{Runtime, Status, Asserted, held, failed, get_event, get_logger}
use rk_grpc.Middleware.Handler.{
  World, panic_counted, panic_logged, Handled, returned, panicked, Interceptor, ServerStream,
  StreamHandler, stream_after, enter, note,
}

unfoldable pub recovered_status : (R : Runtime) → R.Recovered → Status
recovered_status R recv = elim (R.grpc_status recv) [
  | some se ↦ se
  | none ↦ record { code = 13; message = R.sprint recv }
]

module _ (R : Runtime) {A : Type 0} where
  -- The log line of the recovery, and its result. A type assertion that fails in the deferred
  -- function is a panic of its own.
  unfoldable pub log_panic :
      Option R.Error → Asserted (Option R.Logger) → World R → Handled R A × World R
  unfolding note
  log_panic err (held logger) w = (returned none err, note R (panic_logged logger err) w)
  log_panic err failed w = (panicked R.type_assertion, w)

  unfoldable pub report_panic :
      Context → Option R.Error → Asserted (Option R.Event) → World R → Handled R A × World R
  unfolding log_panic note
  report_panic ctx err (held event) w =
      log_panic err (get_logger R ctx w.heap) (note R (panic_counted event) w)
  report_panic ctx err failed w = (panicked R.type_assertion, w)

  -- The deferred function, over the context whose event and logger it takes.
  unfoldable pub recover : Context → Handled R A × World R → Handled R A × World R
  unfolding recovered_status report_panic
  recover ctx (returned resp err, w) = (returned resp err, w)
  recover ctx (panicked recv, w) =
      report_panic ctx (R.status_err (recovered_status R recv)) (get_event R ctx w.heap) w

  unfoldable pub unary_server_interceptor : String → Interceptor R A
  unfolding recover enter
  unary_server_interceptor entry_name handler ctx w =
      let (wrapped, w') = enter R entry_name ctx w in recover wrapped (handler wrapped w')

  -- The handler is given the stream as it came, and the recovery reads that stream's context.
  unfoldable pub stream_server_interceptor : String → StreamHandler R A → StreamHandler R A
  unfolding recover enter stream_after
  stream_server_interceptor entry_name handler stream w =
      let (wrapped, w') = enter R entry_name stream.context w in
      let stream' = stream_after stream wrapped in recover stream'.context (handler stream' w')

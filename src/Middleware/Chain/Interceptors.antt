-- ===== src/Middleware/Chain/Interceptors.antt =====
-- Each interceptor of middleware/ keeps the payloads typed, if the handler behind it does.
use rk_grpc.Prelude.{String, Option}
use rk_grpc.Boot.ErrorWrapper.{StatusPackage}
use rk_grpc.Middleware.Payload.{Context}
use rk_grpc.Middleware.Access.{Runtime, Asserted, held, failed}
use rk_grpc.Middleware.Access.Types.{KeyTypes}
use rk_grpc.Middleware.Log
use rk_grpc.Middleware.Log.{Call, LogSet, LogInput, before_call, close_call, after_call, log_input}
use rk_grpc.Middleware.Panic
use rk_grpc.Middleware.Panic.{recovered_status, recover, report_panic, log_panic}
use rk_grpc.Middleware.Info.{Paths}
use rk_grpc.Middleware.Trace.{
  TraceSet, enter_trace, add_span, add_stream_span, trace_interceptor, trace_stream_interceptor,
  trace_input,
}
use rk_grpc.Middleware.Prom.{prom_interceptor, prom_stream_interceptor, prom_labels}
use rk_grpc.Middleware.Guard.{MetaSet, meta_with_event, meta_interceptor, meta_stream_interceptor}
use rk_grpc.Middleware.Handler.{
  World, UnaryHandler, ServerStream, StreamHandler, wrapped_stream, stream_after, enter,
}
use rk_grpc.Middleware.Chain.Keeps.{
  TypedWorld, enter-IsTyped, add_headers_to_client-IsTyped, before_call-IsTyped,
  enter_trace-IsTyped, add_span-IsTyped, add_stream_span-IsTyped, after_call-IsTyped,
  recover-IsTyped, measure_call-IsTyped, end_span-IsTyped,
}

module _ {R : Runtime} (T : KeyTypes R) {A : Type 0} where
  -- A handler of a call, or of a stream, that leaves typed payloads typed.
  abbrev pub KeepsTypes : UnaryHandler R A → Type 0
  KeepsTypes handler =
      (ctx : Context) (w : World R) → TypedWorld T w → TypedWorld T (handler ctx w).1

  abbrev pub KeepsStreamTypes : StreamHandler R A → Type 0
  KeepsStreamTypes handler =
      (stream : ServerStream) (w : World R) → TypedWorld T w → TypedWorld T (handler stream w).1

  pub log-KeepsTypes :
      (P : Paths) (set : LogSet R) (call : Call) (handler : UnaryHandler R A)
      → KeepsTypes handler
      → KeepsTypes (Log.unary_server_interceptor R P set call handler)
  unfolding Log.unary_server_interceptor
  log-KeepsTypes P set call handler h ctx w t =
      let input = log_input P "UnaryServer" call in
      let (wrapped, w') = before_call R set input ctx w in
      after_call-IsTyped T wrapped (handler wrapped w')
        (h wrapped w' (before_call-IsTyped T set input ctx w t))

  pub log-KeepsStreamTypes :
      (P : Paths) (set : LogSet R) (call : Call) (handler : StreamHandler R A)
      → KeepsStreamTypes handler
      → KeepsStreamTypes (Log.stream_server_interceptor R P set call handler)
  unfolding Log.stream_server_interceptor
  log-KeepsStreamTypes P set call handler h stream w t =
      let input = log_input P "StreamServer" call in
      let (wrapped, w') = before_call R set input stream.context w in
      after_call-IsTyped T wrapped (handler (wrapped_stream wrapped) w')
        (h (wrapped_stream wrapped) w' (before_call-IsTyped T set input stream.context w t))

  pub panic-KeepsTypes :
      (name : String) (handler : UnaryHandler R A)
      → KeepsTypes handler
      → KeepsTypes (Panic.unary_server_interceptor R name handler)
  unfolding Panic.unary_server_interceptor
  panic-KeepsTypes name handler h ctx w t =
      let (wrapped, w') = enter R name ctx w in
      recover-IsTyped T wrapped (handler wrapped w') (h wrapped w' (enter-IsTyped T name ctx w t))

  pub panic-KeepsStreamTypes :
      (name : String) (handler : StreamHandler R A)
      → KeepsStreamTypes handler
      → KeepsStreamTypes (Panic.stream_server_interceptor R name handler)
  unfolding Panic.stream_server_interceptor
  panic-KeepsStreamTypes name handler h stream w t =
      let (wrapped, w') = enter R name stream.context w in
      let stream' = stream_after stream wrapped in
      recover-IsTyped T stream'.context (handler stream' w')
        (h stream' w' (enter-IsTyped T name stream.context w t))

  pub prom-KeepsTypes :
      (P : Paths) (name : String) (call : Call) (handler : UnaryHandler R A)
      → KeepsTypes handler
      → KeepsTypes (prom_interceptor R P name call handler)
  unfolding prom_interceptor
  prom-KeepsTypes P name call handler h ctx w t =
      let (wrapped, w') = enter R name ctx w in
      measure_call-IsTyped T (prom_labels P "UnaryServer" call) (handler wrapped w')
        (h wrapped w' (enter-IsTyped T name ctx w t))

  pub prom-KeepsStreamTypes :
      (P : Paths) (name : String) (call : Call) (handler : StreamHandler R A)
      → KeepsStreamTypes handler
      → KeepsStreamTypes (prom_stream_interceptor R P name call handler)
  unfolding prom_stream_interceptor
  prom-KeepsStreamTypes P name call handler h stream w t =
      let (wrapped, w') = enter R name stream.context w in
      measure_call-IsTyped T (prom_labels P "StreamServer" call)
        (handler (wrapped_stream wrapped) w')
        (h (wrapped_stream wrapped) w' (enter-IsTyped T name stream.context w t))

  pub trace-KeepsTypes :
      (S : StatusPackage R.Error) (P : Paths) (set : TraceSet R) (call : Call)
      (handler : UnaryHandler R A)
      → KeepsTypes handler
      → KeepsTypes (trace_interceptor R S P set call handler)
  unfolding trace_interceptor
  trace-KeepsTypes S P set call handler h ctx w t =
      let (wrapped, w') = enter_trace R P set call ctx w in
      let (new_ctx, s) = set.before (trace_input R P set call wrapped) in
      (end_span-IsTyped T S s (add_span R new_ctx s w' (handler new_ctx)) (
        add_span-IsTyped T new_ctx s w' (handler new_ctx) (enter_trace-IsTyped T P set call ctx w t)
          (h new_ctx))).0

  pub trace-KeepsStreamTypes :
      (S : StatusPackage R.Error) (P : Paths) (set : TraceSet R) (call : Call)
      (handler : StreamHandler R A)
      → KeepsStreamTypes handler
      → KeepsStreamTypes (trace_stream_interceptor R S P set call handler)
  unfolding trace_stream_interceptor
  trace-KeepsStreamTypes S P set call handler h stream w t =
      let (wrapped, w') = enter_trace R P set call stream.context w in
      let (new_ctx, s) = set.before (trace_input R P set call wrapped) in
      let w'' = add_stream_span R new_ctx s w' in
      (end_span-IsTyped T S s (handler (wrapped_stream new_ctx) w'') (
        h (wrapped_stream new_ctx) w'' (
          add_stream_span-IsTyped T new_ctx s w'
            (enter_trace-IsTyped T P set call stream.context w t)))).1

  pub meta_with_event-IsTyped :
      (set : MetaSet R) (call : Call) (handler : UnaryHandler R A) (ctx : Context) (w : World R)
      (e : Asserted (Option R.Event))
      → KeepsTypes handler
      → TypedWorld T w
      → TypedWorld T (meta_with_event R set call handler ctx w e).1
  unfolding meta_with_event
  meta_with_event-IsTyped set call handler ctx w (held e) h t =
      let headers = set.before e call.full_method in
      add_headers_to_client-IsTyped T ctx headers w (handler ctx) t (h ctx)
  meta_with_event-IsTyped set call handler ctx w failed h t = t

  pub meta-KeepsTypes :
      (set : MetaSet R) (call : Call) (handler : UnaryHandler R A)
      → KeepsTypes handler
      → KeepsTypes (meta_interceptor R set call handler)
  unfolding meta_interceptor
  meta-KeepsTypes set call handler h ctx w t =
      let (wrapped, w') = enter R set.entry_name ctx w in
      meta_with_event-IsTyped set call handler wrapped w' _ h
        (enter-IsTyped T set.entry_name ctx w t)

  pub meta-KeepsStreamTypes :
      (set : MetaSet R) (call : Call) (handler : StreamHandler R A)
      → KeepsStreamTypes handler
      → KeepsStreamTypes (meta_stream_interceptor R set call handler)
  unfolding meta_stream_interceptor
  meta-KeepsStreamTypes set call handler h stream w t =
      let (wrapped, w') = enter R set.entry_name stream.context w in
      meta_with_event-IsTyped set call (λ ctx. handler (wrapped_stream ctx)) wrapped w' _
        (λ ctx. h (wrapped_stream ctx)) (enter-IsTyped T set.entry_name stream.context w t)

-- ===== src/Middleware/Chain/Answered.antt =====
-- Of the chains of interceptors that boot/grpc_entry.go builds: where the payloads are typed, every
-- call is answered, a unary one and a stream.
use rk_grpc.Prelude.{Bool, true, false, ◌++◌, String, map, List, [], ◌∷◌}
use rk_grpc.Middleware.Payload.{Context}
use rk_grpc.Middleware.Access.{Runtime}
use rk_grpc.Middleware.Access.Types.{KeyTypes}
use rk_grpc.Middleware.Log
use rk_grpc.Middleware.Log.{Call, LogSet, LogInput, before_call, close_call, after_call, log_input}
use rk_grpc.Middleware.Panic
use rk_grpc.Middleware.Panic.{recovered_status, recover, report_panic, log_panic}
use rk_grpc.Middleware.Info.{Paths}
use rk_grpc.Middleware.Handler.{
  World, UnaryHandler, ServerStream, StreamHandler, wrapped_stream, stream_after, enter,
}
use rk_grpc.Middleware.Chain.Interceptors.{
  KeepsTypes, KeepsStreamTypes, panic-KeepsTypes, panic-KeepsStreamTypes,
}
use rk_grpc.Middleware.Chain.Keeps.{TypedWorld, enter-IsTyped, before_call-IsTyped}
use rk_grpc.Middleware.Chain.{
  Kind, logging, panics, MiddlewareConfig, add_if, unary_interceptors, chain, Sets, interceptor_of,
  stream_interceptor_of, registered_handler, registered_stream_handler,
}
use rk_grpc.Middleware.Chain.Recovery.{inner_kinds, unary_interceptors-outer}
use rk_grpc.Middleware.Chain.Typed.{
  Answers, recover-Answers, after_call-Answers, chain-KeepsTypes, chain-KeepsStreamTypes,
}

module _ {R : Runtime} (T : KeyTypes R) {A : Type 0} where
  panic-Answers :
      (name : String) (handler : UnaryHandler R A)
      → KeepsTypes T handler
      → (ctx : Context) (w : World R) → TypedWorld T w
      → Answers (Panic.unary_server_interceptor R name handler ctx w).0
  unfolding Panic.unary_server_interceptor
  panic-Answers name handler h ctx w t =
      let (wrapped, w') = enter R name ctx w in
      recover-Answers T wrapped (handler wrapped w') (h wrapped w' (enter-IsTyped T name ctx w t))

  log-Answers :
      (P : Paths) (set : LogSet R) (call : Call) (handler : UnaryHandler R A)
      → KeepsTypes T handler
      → ((ctx : Context) (w : World R) → TypedWorld T w → Answers (handler ctx w).0)
      → (ctx : Context) (w : World R) → TypedWorld T w
      → Answers (Log.unary_server_interceptor R P set call handler ctx w).0
  unfolding Log.unary_server_interceptor
  log-Answers P set call handler h a ctx w t =
      let input = log_input P "UnaryServer" call in
      let (wrapped, w') = before_call R set input ctx w in
      let t' = before_call-IsTyped T set input ctx w t in
      after_call-Answers T wrapped (handler wrapped w') (a wrapped w' t') (h wrapped w' t')

  outer-Answers :
      (s : Sets R) (call : Call) (handler : UnaryHandler R A)
      → KeepsTypes T handler
      → (log : Bool) (inner : List Kind) (ctx : Context) (w : World R) → TypedWorld T w
      → Answers
          (chain
            (map (interceptor_of R s call) (add_if log logging [] ++ panics ∷ inner))
            handler
            ctx
            w).0
  unfolding add_if chain interceptor_of
  outer-Answers s call handler h true inner ctx w t =
      let behind = chain (map (interceptor_of R s call) inner) handler in
      let keeps = chain-KeepsTypes T s call inner handler h in
      log-Answers s.paths s.log_set call (Panic.unary_server_interceptor R s.entry_name behind)
        (panic-KeepsTypes T s.entry_name behind keeps) (panic-Answers s.entry_name behind keeps) ctx
        w t
  outer-Answers s call handler h false inner ctx w t =
      panic-Answers s.entry_name (chain (map (interceptor_of R s call) inner) handler)
        (chain-KeepsTypes T s call inner handler h) ctx w t

  stream_panic-Answers :
      (name : String) (handler : StreamHandler R A)
      → KeepsStreamTypes T handler
      → (stream : ServerStream) (w : World R) → TypedWorld T w
      → Answers (Panic.stream_server_interceptor R name handler stream w).0
  unfolding Panic.stream_server_interceptor
  stream_panic-Answers name handler h stream w t =
      let (wrapped, w') = enter R name stream.context w in
      let stream' = stream_after stream wrapped in
      recover-Answers T stream'.context (handler stream' w')
        (h stream' w' (enter-IsTyped T name stream.context w t))

  stream_log-Answers :
      (P : Paths) (set : LogSet R) (call : Call) (handler : StreamHandler R A)
      → KeepsStreamTypes T handler
      → ((stream : ServerStream) (w : World R) → TypedWorld T w → Answers (handler stream w).0)
      → (stream : ServerStream) (w : World R) → TypedWorld T w
      → Answers (Log.stream_server_interceptor R P set call handler stream w).0
  unfolding Log.stream_server_interceptor
  stream_log-Answers P set call handler h a stream w t =
      let input = log_input P "StreamServer" call in
      let (wrapped, w') = before_call R set input stream.context w in
      let t' = before_call-IsTyped T set input stream.context w t in
      after_call-Answers T wrapped (handler (wrapped_stream wrapped) w')
        (a (wrapped_stream wrapped) w' t') (h (wrapped_stream wrapped) w' t')

  stream_outer-Answers :
      (s : Sets R) (call : Call) (handler : StreamHandler R A)
      → KeepsStreamTypes T handler
      → (log : Bool) (inner : List Kind) (stream : ServerStream) (w : World R) → TypedWorld T w
      → Answers
          (chain
            (map (stream_interceptor_of R s call) (add_if log logging [] ++ panics ∷ inner))
            handler
            stream
            w).0
  unfolding add_if chain stream_interceptor_of
  stream_outer-Answers s call handler h true inner stream w t =
      let behind = chain (map (stream_interceptor_of R s call) inner) handler in
      let keeps = chain-KeepsStreamTypes T s call inner handler h in
      stream_log-Answers s.paths s.log_set call
        (Panic.stream_server_interceptor R s.entry_name behind)
        (panic-KeepsStreamTypes T s.entry_name behind keeps)
        (stream_panic-Answers s.entry_name behind keeps) stream w t
  stream_outer-Answers s call handler h false inner stream w t =
      stream_panic-Answers s.entry_name (chain (map (stream_interceptor_of R s call) inner) handler)
        (chain-KeepsStreamTypes T s call inner handler h) stream w t

  -- Whatever is configured, where every value in the payloads has the type of its key and the
  -- service's handler leaves it so, a unary call returns, also where the handler panics, and so
  -- does a stream; and the payloads are typed afterwards.
  pub registered_handlers-Answer :
      (s : Sets R) (call : Call) (m : MiddlewareConfig) (handler : UnaryHandler R A)
      (stream_handler : StreamHandler R A)
      → KeepsTypes T handler
      → KeepsStreamTypes T stream_handler
      → (ctx : Context) (stream : ServerStream) (w : World R) → TypedWorld T w
      → Answers (registered_handler R s call m handler ctx w).0
        × Answers (registered_stream_handler R s call m stream_handler stream w).0
        × TypedWorld T (registered_handler R s call m handler ctx w).1
        × TypedWorld T (registered_stream_handler R s call m stream_handler stream w).1
  unfolding registered_handler registered_stream_handler
  registered_handlers-Answer s call m handler stream_handler h sh ctx stream w t = (
    rw (unary_interceptors-outer m, registered_handler)
        (outer-Answers s call handler h m.logging_enabled (inner_kinds m) ctx w t),
    rw (unary_interceptors-outer m, registered_stream_handler)
        (stream_outer-Answers s call stream_handler sh m.logging_enabled (inner_kinds m) stream w
          t),
    chain-KeepsTypes T s call (unary_interceptors m) handler h ctx w t,
    chain-KeepsStreamTypes T s call (unary_interceptors m) stream_handler sh stream w t,
  )

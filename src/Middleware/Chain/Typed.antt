-- ===== src/Middleware/Chain/Typed.antt =====
-- Of the chains of interceptors that boot/grpc_entry.go builds: where the payloads are typed, every
-- call is answered.
use rk_grpc.Prelude.{String, refl, ◌≢◌, map, Option, List, [], ◌∷◌}
use rk_grpc.Middleware.Payload.{Context}
use rk_grpc.Middleware.Access.{Runtime, Asserted, held, failed}
use rk_grpc.Middleware.Access.Types.{KeyTypes}
use rk_grpc.Middleware.Log.{Call, close_call, after_call}
use rk_grpc.Middleware.Panic.{recover, report_panic, log_panic}
use rk_grpc.Middleware.Handler.{World, Handled, returned, panicked, UnaryHandler, StreamHandler}
use rk_grpc.Middleware.Chain.Interceptors.{
  KeepsTypes, KeepsStreamTypes, log-KeepsTypes, log-KeepsStreamTypes, panic-KeepsTypes,
  panic-KeepsStreamTypes, prom-KeepsTypes, prom-KeepsStreamTypes, trace-KeepsTypes,
  trace-KeepsStreamTypes, meta-KeepsTypes, meta-KeepsStreamTypes,
}
use rk_grpc.Middleware.Access.Assertions.{
  get_event-ne-failed, get_logger-ne-failed, get_request_id-ne-failed, get_trace_id-ne-failed,
}
use rk_grpc.Middleware.Chain.Keeps.{TypedWorld}
use rk_grpc.Middleware.Chain.Guards.{
  auth-KeepsTypes, auth-KeepsStreamTypes, ratelimit-KeepsTypes, ratelimit-KeepsStreamTypes,
  jwt-KeepsTypes, jwt-KeepsStreamTypes, timeout-KeepsTypes, timeout-KeepsStreamTypes,
}
use rk_grpc.Middleware.Chain.{
  Kind, logging, panics, prom, trace, jwt, meta, auth, timeout, rate_limit, chain, Sets,
  interceptor_of, stream_interceptor_of,
}

-- The handler has returned.
abbrev pub Answers : {R : Runtime} {A : Type 0} → Handled R A → Type 0
Answers (returned resp err) = Unit
Answers (panicked recv) = ⊥

module _ {R : Runtime} (T : KeyTypes R) where
  log_panic-Answers :
      (A : Type 0) (err : Option R.Error) (l : Asserted (Option R.Logger)) (w : World R)
      → l ≢ failed
      → Answers (log_panic R {A = A} err l w).0
  unfolding log_panic
  log_panic-Answers A err (held l) w h = tt
  log_panic-Answers A err failed w h = h refl

  report_panic-Answers :
      (A : Type 0) (ctx : Context) (err : Option R.Error) (e : Asserted (Option R.Event))
      (w : World R)
      → e ≢ failed
      → TypedWorld T w
      → Answers (report_panic R {A = A} ctx err e w).0
  unfolding report_panic
  report_panic-Answers A ctx err (held e) w h t =
      log_panic-Answers A err _ _ (get_logger-ne-failed T ctx w.heap t)
  report_panic-Answers A ctx err failed w h t = h refl

  module _ {A : Type 0} where
    pub recover-Answers :
        (ctx : Context) (end : Handled R A × World R)
        → TypedWorld T end.1
        → Answers (recover R ctx end).0
    unfolding recover
    recover-Answers ctx (returned resp err, w) t = tt
    recover-Answers ctx (panicked recv, w) t =
        report_panic-Answers A ctx _ _ w (get_event-ne-failed T ctx w.heap t) t

    close_call-Answers :
        (resp : Option A) (err : Option R.Error) (rid tid : Asserted String) (w : World R)
        → rid ≢ failed
        → tid ≢ failed
        → Answers (close_call R resp err rid tid w).0
    unfolding close_call
    close_call-Answers resp err (held rid) (held tid) w hr ht = tt
    close_call-Answers resp err (held rid) failed w hr ht = ht refl
    close_call-Answers resp err failed tid w hr ht = hr refl

    pub after_call-Answers :
        (ctx : Context) (end : Handled R A × World R)
        → Answers end.0
        → TypedWorld T end.1
        → Answers (after_call R ctx end).0
    unfolding after_call
    after_call-Answers ctx (returned resp err, w) a t =
        close_call-Answers resp err _ _ w (get_request_id-ne-failed T ctx w.heap t)
          (get_trace_id-ne-failed T ctx w.heap t)
    after_call-Answers ctx (panicked recv, w) a t = a

  module _ {A : Type 0} (s : Sets R) (call : Call) where
    interceptor_of-KeepsTypes :
        (k : Kind) (handler : UnaryHandler R A)
        → KeepsTypes T handler
        → KeepsTypes T (interceptor_of R s call k handler)
    unfolding interceptor_of
    interceptor_of-KeepsTypes logging handler h = log-KeepsTypes T s.paths s.log_set call handler h
    interceptor_of-KeepsTypes panics handler h = panic-KeepsTypes T s.entry_name handler h
    interceptor_of-KeepsTypes prom handler h = prom-KeepsTypes T s.paths s.entry_name call handler h
    interceptor_of-KeepsTypes trace handler h =
        trace-KeepsTypes T s.statuses s.paths s.trace_set call handler h
    interceptor_of-KeepsTypes jwt handler h =
        jwt-KeepsTypes T s.canonical s.statuses s.jwt_set call (λ token. handler) (λ token. h)
    interceptor_of-KeepsTypes meta handler h = meta-KeepsTypes T s.meta_set call handler h
    interceptor_of-KeepsTypes auth handler h =
        auth-KeepsTypes T s.statuses s.header_names s.auth_set call handler h
    interceptor_of-KeepsTypes timeout handler h =
        timeout-KeepsTypes T s.statuses s.timeout_set call handler h
    interceptor_of-KeepsTypes rate_limit handler h =
        ratelimit-KeepsTypes T s.statuses s.limit_set call handler h

    stream_interceptor_of-KeepsTypes :
        (k : Kind) (handler : StreamHandler R A)
        → KeepsStreamTypes T handler
        → KeepsStreamTypes T (stream_interceptor_of R s call k handler)
    unfolding stream_interceptor_of
    stream_interceptor_of-KeepsTypes logging handler h =
        log-KeepsStreamTypes T s.paths s.log_set call handler h
    stream_interceptor_of-KeepsTypes panics handler h =
        panic-KeepsStreamTypes T s.entry_name handler h
    stream_interceptor_of-KeepsTypes prom handler h =
        prom-KeepsStreamTypes T s.paths s.entry_name call handler h
    stream_interceptor_of-KeepsTypes trace handler h =
        trace-KeepsStreamTypes T s.statuses s.paths s.trace_set call handler h
    stream_interceptor_of-KeepsTypes jwt handler h =
        jwt-KeepsStreamTypes T s.canonical s.statuses s.jwt_set call (λ token. handler) (λ token. h)
    stream_interceptor_of-KeepsTypes meta handler h =
        meta-KeepsStreamTypes T s.meta_set call handler h
    stream_interceptor_of-KeepsTypes auth handler h =
        auth-KeepsStreamTypes T s.statuses s.header_names s.auth_set call handler h
    stream_interceptor_of-KeepsTypes timeout handler h =
        timeout-KeepsStreamTypes T s.statuses s.timeout_set call handler h
    stream_interceptor_of-KeepsTypes rate_limit handler h =
        ratelimit-KeepsStreamTypes T s.statuses s.limit_set call handler h

    pub chain-KeepsTypes :
        (ks : List Kind) (handler : UnaryHandler R A)
        → KeepsTypes T handler
        → KeepsTypes T (chain (map (interceptor_of R s call) ks) handler)
    unfolding chain
    chain-KeepsTypes [] handler h = h
    chain-KeepsTypes (k ∷ ks) handler h =
        interceptor_of-KeepsTypes k _ (chain-KeepsTypes ks handler h)

    pub chain-KeepsStreamTypes :
        (ks : List Kind) (handler : StreamHandler R A)
        → KeepsStreamTypes T handler
        → KeepsStreamTypes T (chain (map (stream_interceptor_of R s call) ks) handler)
    unfolding chain
    chain-KeepsStreamTypes [] handler h = h
    chain-KeepsStreamTypes (k ∷ ks) handler h =
        stream_interceptor_of-KeepsTypes k _ (chain-KeepsStreamTypes ks handler h)

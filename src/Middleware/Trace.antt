-- ===== src/Middleware/Trace.antt =====
-- The interceptors of middleware/tracing/server_interceptor.go. What the option set of rk-entry makes
-- of its input, the new context and the span, is a parameter; the end of the span is a note.
use rk_grpc.Prelude.{String, Option, none, some, List, [], ◌∷◌}
use rk_grpc.Boot.ErrorWrapper.{StatusPackage}
use rk_grpc.Middleware.Payload.{Context}
use rk_grpc.Middleware.Address.{or_nil, get_remote_address_set}
use rk_grpc.Middleware.Access.{Runtime, span, tracer, tracer_provider, propagator}
use rk_grpc.Middleware.Info.{Paths, get_gw_info, get_grpc_info}
use rk_grpc.Middleware.Log.{Call}
use rk_grpc.Middleware.Handler.{
  World, span_ended, Handled, returned, panicked, Interceptor, StreamHandler, wrapped_stream, enter,
  add_to_payload, add_header_to_client, note,
}

-- `beforeCtx.Input`: the path, which is the span's name too, the context, the carrier's metadata and
-- the attributes.
pub record TraceInput : Type 0 where
  pub url_path : String
  pub request_ctx : Context
  pub carrier : List (String × List String)
  pub attributes : List (String × String)

-- `before` gives `NewCtx` and `Span`, which may be nil.
pub record TraceSet (R : Runtime) : Type 0 where
  pub entry_name : String
  pub tracer : R.Tracer
  pub provider : R.TracerProvider
  pub propagator : R.Propagator
  pub local_ip : String
  pub local_hostname : String
  pub before : TraceInput → Context × Option R.Span

module _ (R : Runtime) (P : Paths) (set : TraceSet R) (call : Call) where
  unfoldable pub grpc_info_to_attributes : String → List (String × String)
  grpc_info_to_attributes rpc_type =
      let (remote_ip, remote_port, _) = get_remote_address_set P.split_host_port call.incoming in
      let (grpc_service, grpc_method) = get_grpc_info P call.full_method in
      let gw = get_gw_info (or_nil call.incoming.metadata) in
      ("local.IP", set.local_ip)
      ∷ ("local.hostname", set.local_hostname)
      ∷ ("remote.IP", remote_ip)
      ∷ ("remote.port", remote_port)
      ∷ ("grpc.service", grpc_service)
      ∷ ("grpc.method", grpc_method)
      ∷ ("gw.method", gw.method)
      ∷ ("gw.path", gw.path)
      ∷ ("gw.scheme", gw.scheme)
      ∷ ("gw.userAgent", gw.user_agent)
      ∷ ("server.type", rpc_type)
      ∷ []

  -- Both interceptors give the type "UnaryServer".
  unfoldable pub trace_input : Context → TraceInput
  unfolding grpc_info_to_attributes
  trace_input ctx = record {
    url_path = call.full_method;
    request_ctx = ctx;
    carrier = or_nil call.incoming.metadata;
    attributes = grpc_info_to_attributes "UnaryServer";
  }

  -- The lines of both interceptors up to `set.Before`.
  unfoldable pub enter_trace : Context → World R → Context × World R
  unfolding enter add_to_payload
  enter_trace ctx w =
      let (wrapped, w') = enter R set.entry_name ctx w in
      let with_tracer = add_to_payload R wrapped R.tracer_key (tracer set.tracer) w' in
      let with_provider =
        add_to_payload R wrapped R.tracer_provider_key (tracer_provider set.provider) with_tracer in
      (wrapped, add_to_payload R wrapped R.propagator_key (propagator set.propagator) with_provider)

module _ (R : Runtime) where
  -- The span is put into the payload, and its id into the header and the payload, before what is next.
  unfoldable pub add_span :
      {A : Type 0}
      → Context
      → Option R.Span
      → World R
      → (World R → Handled R A × World R)
      → Handled R A × World R
  unfolding add_to_payload add_header_to_client
  add_span ctx none w next = next w
  add_span ctx (some s) w next =
      add_header_to_client R ctx (R.header_trace_id, R.span_trace_id s)
        (add_to_payload R ctx R.span_key (span s) w) next

  -- The stream interceptor only puts it into the payload; AddToServerContextPayload leaves nil out.
  unfoldable pub add_stream_span : Context → Option R.Span → World R → World R
  unfolding add_to_payload
  add_stream_span ctx none w = w
  add_stream_span ctx (some s) w = add_to_payload R ctx R.span_key (span s) w

module _ (R : Runtime) (S : StatusPackage R.Error) {A : Type 0} where
  -- What follows the handler; it is not deferred. The attributes are made of the status of the error.
  unfoldable pub end_span : Option R.Span → Handled R A × World R → Handled R A × World R
  unfolding note
  end_span s (returned resp (some err), w) =
      let (code, message) = S.from_error (some err) in
      (
        returned resp (some err),
        note R (span_ended s R.otel_error message (some (code, S.code_text code))) w,
      )
  end_span s (returned resp none, w) =
      (returned resp none, note R (span_ended s 200 "" (some R.otel_ok)) w)
  end_span s (panicked recv, w) = (panicked recv, w)

  -- The stream interceptor collects the attributes and does not hand them on.
  unfoldable pub end_stream_span : Option R.Span → Handled R A × World R → Handled R A × World R
  unfolding note
  end_stream_span s (returned resp (some err), w) =
      let (code, message) = S.from_error (some err) in
      (returned resp (some err), note R (span_ended s R.otel_error message none) w)
  end_stream_span s (returned resp none, w) =
      (returned resp none, note R (span_ended s 200 "" none) w)
  end_stream_span s (panicked recv, w) = (panicked recv, w)

  unfoldable pub trace_interceptor : Paths → TraceSet R → Call → Interceptor R A
  unfolding enter_trace trace_input add_span end_span
  trace_interceptor P set call handler ctx w =
      let (wrapped, w') = enter_trace R P set call ctx w in
      let (new_ctx, s) = set.before (trace_input R P set call wrapped) in
      end_span s (add_span R new_ctx s w' (handler new_ctx))

  unfoldable pub trace_stream_interceptor :
      Paths → TraceSet R → Call → StreamHandler R A → StreamHandler R A
  unfolding enter_trace trace_input add_stream_span end_stream_span
  trace_stream_interceptor P set call handler stream w =
      let (wrapped, w') = enter_trace R P set call stream.context w in
      let (new_ctx, s) = set.before (trace_input R P set call wrapped) in
      end_stream_span s (handler (wrapped_stream new_ctx) (add_stream_span R new_ctx s w'))

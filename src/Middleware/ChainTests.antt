-- ===== src/Middleware/ChainTests.antt =====
-- The theorems on whole chains of interceptors, on the accessors, on tracing, on timeouts and on
-- outgoing metadata, at concrete inputs.
use rk_grpc.Prelude.{String, ◌≡◌, refl, ◌≢◌, true, false, some, none, [], ◌∷◌, List}
use rk_grpc.Boot.ErrorWrapper.{GrpcStatus, own_detail}
use rk_grpc.Boot.Plain.{plain_statuses, plain_laws}
use rk_grpc.Middleware.Address.{values_of, or_nil}
use rk_grpc.Middleware.Payload.{
  read_payload, wrap_context_for_server, add_to_server_context_payload,
}
use rk_grpc.Middleware.Plain.{runtime, key_types}
use rk_grpc.Middleware.Access.{
  failed, get_event, get_logger, get_entry_name, get_request_id, get_trace_id, get_trace_span,
  get_tracer, get_tracer_provider, get_tracer_propagator,
}
use rk_grpc.Middleware.Access.Assertions.{accessors_never_panic}
use rk_grpc.Middleware.Access.Types.{tag_of}
use rk_grpc.Middleware.Outgoing.Plain.{plain_metadata, plain_metadata-Laws}
use rk_grpc.Middleware.Handler.{returned, panicked, UnaryHandler, StreamHandler, enter}
use rk_grpc.Middleware.InterceptorTests.{world, wrapped, bare_stream, panicking, call, sets}
use rk_grpc.Middleware.Timeout.{
  init_handler, next_handler, finish_handler, wait_func, after_next, timeout_handler,
  timeout_interceptor, TimeoutSet,
}
use rk_grpc.Middleware.Timeout.Answers.{timed_out_call_fails}
use rk_grpc.Middleware.Chain.{MiddlewareConfig, registered_handler, registered_stream_handler}
use rk_grpc.Middleware.Chain.Keeps.{TypedWorld}
use rk_grpc.Middleware.Chain.Typed.{Answers}
use rk_grpc.Middleware.Chain.Answered.{registered_handlers-Answer}
use rk_grpc.Middleware.Outgoing.{OutgoingContext, merge_to_outgoing_md}
use rk_grpc.Middleware.Outgoing.Again.{merge_to_outgoing_md-again}

abbrev everything : MiddlewareConfig
everything = record {
  logging_enabled = true;
  prom_enabled = true;
  trace_enabled = true;
  jwt_enabled = true;
  meta_enabled = true;
  auth_enabled = true;
  timeout_enabled = true;
  rate_limit_enabled = true;
}

abbrev panicking_stream : StreamHandler runtime String
panicking_stream stream w = (panicked "boom", w)

world-Typed : TypedWorld key_types world
unfolding tag_of
world-Typed = (tt, (((λ t e. cc e), tt), tt))

accessors_never_panic_example :
    (get_event runtime wrapped world.heap ≢ failed)
    × (get_logger runtime wrapped world.heap ≢ failed)
    × (get_entry_name runtime wrapped world.heap ≢ failed)
    × (get_request_id runtime wrapped world.heap ≢ failed)
    × (get_trace_id runtime wrapped world.heap ≢ failed)
    × (get_trace_span runtime wrapped world.heap ≢ failed)
    × (get_tracer runtime wrapped world.heap ≢ failed)
    × (get_tracer_provider runtime wrapped world.heap ≢ failed)
    × (get_tracer_propagator runtime wrapped world.heap ≢ failed)
accessors_never_panic_example = accessors_never_panic key_types wrapped world.heap world-Typed

registered_handlers-Answer_example :
    Answers (registered_handler runtime sets call everything panicking wrapped world).0
    × Answers
        (registered_stream_handler runtime sets call everything panicking_stream bare_stream
          world).0
    × TypedWorld key_types
        (registered_handler runtime sets call everything panicking wrapped world).1
    × TypedWorld key_types
        (registered_stream_handler runtime sets call everything panicking_stream bare_stream
          world).1
registered_handlers-Answer_example =
    registered_handlers-Answer key_types sets call everything panicking panicking_stream
      (λ ctx w t. t) (λ stream w t. t) wrapped bare_stream world world-Typed

-- The handler returns while the clock's function runs.
abbrev late_set : TimeoutSet runtime
late_set = record {
  entry_name = "e";
  wait = λ ev path. init_handler ∷ next_handler ∷ timeout_handler ∷ finish_handler ∷ [];
  passes_on = λ recv. some recv;
}

abbrev answering : UnaryHandler runtime String
answering ctx w = (returned (some "r") none, w)

timed_out_call_fails_example :
    (e : GrpcStatus) × (timeout_interceptor runtime plain_statuses late_set call answering wrapped
        world
      ≡ (returned (some "r") (some e), (enter runtime "e" wrapped world).1))
unfolding own_detail wait_func after_next get_event enter read_payload wrap_context_for_server
    add_to_server_context_payload
timed_out_call_fails_example =
    timed_out_call_fails runtime plain_statuses plain_laws late_set call answering wrapped world
      (enter runtime "e" wrapped world).1 none (init_handler ∷ next_handler ∷ [])
      (finish_handler ∷ []) (some "r") none refl refl refl (((λ e. cc e), λ e. cc e), tt) refl

-- Names are lower-cased as they are here.
abbrev fresh_context : OutgoingContext
fresh_context = record { appended = false; outgoing = none }

abbrev one_name : List (String × List String)
one_name = ("a", "1" ∷ []) ∷ []

merge_to_outgoing_md-again_example :
    let M = plain_metadata (λ s. s) in
    let once = merge_to_outgoing_md M fresh_context one_name in
    values_of "a" (or_nil (merge_to_outgoing_md M once one_name).outgoing) ≡ "1" ∷ "1" ∷ []
unfolding values_of
merge_to_outgoing_md-again_example =
    merge_to_outgoing_md-again (plain_metadata (λ s. s)) (plain_metadata-Laws (λ s. s))
      fresh_context one_name "a" refl (refl, tt, tt)

-- ===== src/Middleware/Log.antt =====
-- The interceptors of middleware/log/server_interceptor.go. What the option set of rk-entry does
-- with its input before the call is a parameter; its closing of the event is a note.
use Prim.Native.String
use rk_grpc.Prelude.{String, true, Option, List, [], ◌∷◌}
use rk_grpc.Middleware.Payload.{Context}
use rk_grpc.Middleware.Address.{Incoming, or_nil, get_remote_address_set}
use rk_grpc.Middleware.Access.{
  Runtime, event, logger, Asserted, held, failed, get_request_id, get_trace_id,
}
use rk_grpc.Middleware.Info.{Paths, get_gw_info, get_grpc_info}
use rk_grpc.Middleware.Handler.{
  World, call_logged, Handled, returned, panicked, Interceptor, StreamHandler, enter,
  add_to_payload, note,
}

-- The call, as the interceptor sees it: `info.FullMethod`, the metadata and the peer.
pub record Call : Type 0 where
  pub full_method : String
  pub incoming : Incoming

-- `beforeCtx.Input`
pub record LogInput : Type 0 where
  pub url_path : String
  pub remote_addr : String
  pub fields : List (String × String)

pub record LogSet (R : Runtime) : Type 0 where
  pub entry_name : String
  pub before : LogInput → R.Event × R.Logger

unfoldable pub log_input : Paths → String → Call → LogInput
log_input P grpc_type call =
    let (ip, port, net_type) = get_remote_address_set P.split_host_port call.incoming in
    let (grpc_service, grpc_method) = get_grpc_info P call.full_method in
    let gw = get_gw_info (or_nil call.incoming.metadata) in
    record {
      url_path = call.full_method;
      remote_addr = String.◌++◌ ip (String.◌++◌ ":" port);
      fields =
          ("grpcService", grpc_service)
          ∷ ("grpcMethod", grpc_method)
          ∷ ("grpcType", grpc_type)
          ∷ ("gwMethod", gw.method)
          ∷ ("gwPath", gw.path)
          ∷ ("gwScheme", gw.scheme)
          ∷ ("gwUserAgent", gw.user_agent)
          ∷ [];
    }

-- What precedes the handler, with the context that it is given.
unfoldable pub before_call :
    (R : Runtime) → LogSet R → LogInput → Context → World R → Context × World R
unfolding enter add_to_payload
before_call R set input ctx w =
    let (wrapped, w') = enter R set.entry_name ctx w in
    let (ev, log) = set.before input in
    (
      wrapped,
      add_to_payload R wrapped R.logger_key (logger log)
          (add_to_payload R wrapped R.event_key (event ev) w'),
    )

module _ (R : Runtime) {A : Type 0} where
  -- `set.After`, with the ids that are read then, and the code of the error.
  unfoldable pub close_call :
      Option A
      → Option R.Error
      → Asserted String
      → Asserted String
      → World R
      → Handled R A × World R
  unfolding note
  close_call resp err (held rid) (held tid) w =
      (returned resp err, note R (call_logged rid tid (R.status_code err)) w)
  close_call resp err (held rid) failed w = (panicked R.type_assertion, w)
  close_call resp err failed tid w = (panicked R.type_assertion, w)

  -- What follows the handler. It is not deferred: a panic passes it by.
  unfoldable pub after_call : Context → Handled R A × World R → Handled R A × World R
  unfolding close_call
  after_call ctx (returned resp err, w) =
      close_call resp err (get_request_id R ctx w.heap) (get_trace_id R ctx w.heap) w
  after_call ctx (panicked recv, w) = (panicked recv, w)

  unfoldable pub unary_server_interceptor : Paths → LogSet R → Call → Interceptor R A
  unfolding before_call after_call log_input
  unary_server_interceptor P set call handler ctx w =
      let (wrapped, w') = before_call R set (log_input P "UnaryServer" call) ctx w in
      after_call wrapped (handler wrapped w')

  -- The handler is given the wrapped stream.
  unfoldable pub stream_server_interceptor :
      Paths → LogSet R → Call → StreamHandler R A → StreamHandler R A
  unfolding before_call after_call log_input
  stream_server_interceptor P set call handler stream w =
      let (wrapped, w') = before_call R set (log_input P "StreamServer" call) stream.context w in
      after_call wrapped (handler (record { context = wrapped; is_wrapped = true }) w')

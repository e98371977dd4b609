-- ===== src/Middleware/InterceptorTests.antt =====
-- The theorems on the interceptors at concrete inputs.
use rk_grpc.Prelude.{
  String, ◌≡◌, refl, true, false, some, none, [], ◌∷◌, str_eq, if◌then◌else◌, inl,
}
use rk_grpc.Boot.Plain.{plain_statuses}
use rk_grpc.Middleware.Plain.{slot, runtime}
use rk_grpc.Middleware.Payload.{
  Context, wrap_context_for_server, add_to_server_context_payload, read_payload,
}
use rk_grpc.Middleware.Access.{text, get_event, get_logger}
use rk_grpc.Middleware.Address.{values_of}
use rk_grpc.Middleware.Handler.{
  World, panic_logged, panic_counted, call_logged, returned, panicked, UnaryHandler, ServerStream,
  add_headers_to_client, add_header_to_client, after_set_header, StreamHandler,
}
use rk_grpc.Middleware.Panic
use rk_grpc.Middleware.Panic.{recovered_status, recover, report_panic, log_panic}
use rk_grpc.Middleware.Log
use rk_grpc.Middleware.Log.{Call, LogSet, close_call, after_call, before_call}
use rk_grpc.Middleware.Prom.{prom_interceptor}
use rk_grpc.Middleware.Guard.{
  AuthSet, get_first_header, HeaderNames, LimitSet, auth_input, auth_interceptor, meta_interceptor,
}
use rk_grpc.Middleware.Timeout.{init_handler, next_handler, finish_handler, timeout_interceptor}
use rk_grpc.Middleware.Chain.{
  MiddlewareConfig, Sets, unary_interceptors, interceptor_of, chain, registered_handler,
  registered_stream_handler,
}
use rk_grpc.Middleware.Chain.Refused.{refused_call_reaches_no_handler}
use rk_grpc.Middleware.Chain.Recovery.{
  Recovers, IsLogged, registered_handler-Recovers, registered_handler-IsLogged,
}

abbrev pub world : World runtime
world = record { heap = [] ∷ ((slot 0, text "f") ∷ []) ∷ []; headers = []; notes = [] }

abbrev pub wrapped : Context
wrapped = record { payload = some 1 }

abbrev pub bare_stream : ServerStream
bare_stream = record { context = record { payload = none }; is_wrapped = false }

abbrev pub panicking : UnaryHandler runtime String
panicking ctx w = (panicked "boom", record w { headers = [] })

abbrev pub call : Call
call = record {
  full_method = "/s/m";
  incoming = record { metadata = some (("authorization", "Basic x" ∷ []) ∷ []); peer = none };
}

abbrev names : HeaderNames
names = record {
  to_lower = λ s. s;
  header_authorization = "authorization";
  header_api_key = "x-api-key";
}

-- Whoever has a header is let in, but for "Basic x".
abbrev auth_set : AuthSet
auth_set = record {
  entry_name = "e";
  before = λ input.
      if str_eq input.basic_auth_header "Basic x"
      then (some "no", ("WWW-Authenticate", "Basic") ∷ [])
      else (none, []);
}

abbrev limit_set : LimitSet
limit_set = record {
  entry_name = "e";
  before = λ path. if str_eq path "/s/m" then some "slow down" else none;
}

abbrev pub sets : Sets runtime
sets = record {
  paths = record {
    dir = λ p. "/s";
    base = λ p. "m";
    trim_prefix = λ s prefix. s;
    split_host_port = λ a. ("", "");
  };
  header_names = names;
  statuses = plain_statuses;
  entry_name = "e";
  log_set = record { entry_name = "e"; before = λ input. (input.url_path, "log") };
  meta_set = record { entry_name = "e"; before = λ ev path. ("X-Request-Id", "r1") ∷ [] };
  auth_set = record { entry_name = "e"; before = λ input. (none, []) };
  limit_set = limit_set;
  Token = String;
  canonical = λ name. name;
  trace_set = record {
    entry_name = "e";
    tracer = 0;
    provider = 0;
    propagator = 0;
    local_ip = "127.0.0.1";
    local_hostname = "host";
    before = λ input. (input.request_ctx, some 77);
  };
  jwt_set = record { entry_name = "e"; before = λ req. (none, some "token") };
  timeout_set = record {
    entry_name = "e";
    wait = λ ev path. init_handler ∷ next_handler ∷ finish_handler ∷ [];
    passes_on = λ recv. some recv;
  };
}

abbrev pub config : MiddlewareConfig
config = record {
  logging_enabled = true;
  prom_enabled = true;
  trace_enabled = false;
  jwt_enabled = false;
  meta_enabled = true;
  auth_enabled = true;
  timeout_enabled = true;
  rate_limit_enabled = false;
}

abbrev refusing_sets : Sets runtime
refusing_sets = record sets { auth_set = auth_set }

abbrev answering_ok : UnaryHandler runtime String
answering_ok ctx w = (returned (some "r") none, w)

abbrev panicking_stream : StreamHandler runtime String
panicking_stream stream w = (panicked "boom", w)

abbrev answering_stream : StreamHandler runtime String
answering_stream stream w = (returned (some "r") none, w)

registered_handler-Recovers_example :
    Recovers runtime (registered_handler runtime sets call config panicking wrapped world)
registered_handler-Recovers_example =
    registered_handler-Recovers runtime sets call panicking wrapped world config

registered_handler-IsLogged_example :
    IsLogged runtime (registered_handler runtime sets call config panicking wrapped world)
registered_handler-IsLogged_example =
    registered_handler-IsLogged runtime sets call panicking wrapped world config refl

-- The panic of the handler is answered with its status, and logged with the id that the meta
-- interceptor has given the call.
panic_is_answered_and_logged :
    let end = registered_handler runtime sets call config panicking wrapped world in
    (end.0 ≡ returned none (some (record { code = 13; message = "boom"; details = [] })))
    × (end.1.notes
        ≡ call_logged "r1" "" "Internal"
          ∷ panic_logged (some "log") (some (record { code = 13; message = "boom"; details = [] }))
          ∷ panic_counted (some "/s/m")
          ∷ [])
unfolding registered_handler Log.unary_server_interceptor Panic.unary_server_interceptor recover
    report_panic log_panic recovered_status after_call close_call chain interceptor_of
    unary_interceptors prom_interceptor meta_interceptor get_event read_payload
    wrap_context_for_server add_to_server_context_payload auth_interceptor add_headers_to_client
    add_header_to_client after_set_header get_logger timeout_interceptor
panic_is_answered_and_logged = (refl, refl)

-- With the configuration as it is, whose authorisation refuses the call.
refused_call_reaches_no_handler_example :
    (registered_handler runtime refusing_sets call config panicking
      ≡ registered_handler runtime refusing_sets call config answering_ok)
    × (registered_stream_handler runtime refusing_sets call config panicking_stream
        ≡ registered_stream_handler runtime refusing_sets call config answering_stream)
unfolding auth_input get_first_header values_of
refused_call_reaches_no_handler_example =
    refused_call_reaches_no_handler runtime refusing_sets call config (inl (refl, "no", refl))
      panicking answering_ok panicking_stream answering_stream

-- ===== src/Middleware/Access.antt =====
-- What middleware/context/context.go reads of the payload of a server context: GetEvent, GetLogger,
-- GetRequestId, GetTraceId, GetEntryName and the four accessors for traces. A value under one of rk-entry's keys that
-- has another type than the accessor asserts makes it panic.
pub mod Types
pub mod Assertions
use rk_grpc.Prelude.{
  ℕ, String, Bool, Option, none, some, List, [], ◌∷◌, ◌++◌, str_eq, if◌then◌else◌,
}
use rk_grpc.Middleware.Payload.{Context, Payload, read_payload}

pub record Status : Type 0 where
  pub code : ℕ
  pub message : String

-- What the middleware uses of the libraries. Of Go: panic values with `GRPCStatus()`, if they have
-- it, with their text, and with the runtime error of a failed type assertion. Of grpc-go:
-- `sts.Err()` and `status.Code(err).String()`. Of zap: `With`. Of opentelemetry: the objects of
-- tracing, `span.SpanContext().TraceID().String()`, and codes.Error and codes.Ok, the latter with
-- its name. Of rk-entry: events, loggers, and the keys,
-- the headers' names among them. What else a payload may hold is an object.
pub record Runtime : Type 1 where
  pub Recovered : Type 0
  pub Error : Type 0
  pub Event : Type 0
  pub Logger : Type 0
  pub Span : Type 0
  pub Tracer : Type 0
  pub TracerProvider : Type 0
  pub Propagator : Type 0
  pub Object : Type 0
  pub Key : Type 0
  pub grpc_status : Recovered → Option Status
  pub sprint : Recovered → String
  pub type_assertion : Recovered
  pub status_err : Status → Option Error
  pub status_code : Option Error → String
  pub with_fields : List (String × String) → Logger → Logger
  pub span_trace_id : Span → String
  pub otel_error : ℕ
  pub otel_ok : ℕ × String
  pub key_eq : Key → Key → Bool
  pub header_key : String → Key
  pub entry_name_key : Key
  pub event_key : Key
  pub logger_key : Key
  pub span_key : Key
  pub tracer_key : Key
  pub tracer_provider_key : Key
  pub propagator_key : Key
  pub header_request_id : String
  pub set_header : String → String → Bool
  pub header_trace_id : String

-- An interface value of a payload, by its dynamic type.
pub data Value (R : Runtime) : Type 0 where
  text : String → Value R
  event : R.Event → Value R
  logger : R.Logger → Value R
  span : R.Span → Value R
  tracer : R.Tracer → Value R
  tracer_provider : R.TracerProvider → Value R
  propagator : R.Propagator → Value R
  object : R.Object → Value R

abbrev pub Heap : Runtime → Type 0
Heap R = List (Payload R.Key (Value R))

-- What a type assertion gives.
pub data Asserted (A : Type 0) : Type 0 where
  held : A → Asserted A
  failed : Asserted A

module _ (R : Runtime) where
  -- `v.(rkquery.Event)`; without a value, the no-op event.
  unfoldable pub assert_event : Option (Value R) → Asserted (Option R.Event)
  assert_event none = held none
  assert_event (some (event e)) = held (some e)
  assert_event (some _) = failed

  -- `v1.(*zap.Logger)`; without a value, the no-op logger.
  unfoldable pub assert_logger : Option (Value R) → Asserted (Option R.Logger)
  assert_logger none = held none
  assert_logger (some (logger l)) = held (some l)
  assert_logger (some _) = failed

  -- `id.(string)`; without a value, the empty text.
  unfoldable pub assert_text : Option (Value R) → Asserted String
  assert_text none = held ""
  assert_text (some (text s)) = held s
  assert_text (some _) = failed

  unfoldable pub get_event : Context → Heap R → Asserted (Option R.Event)
  unfolding assert_event
  get_event ctx heap = assert_event (read_payload R.key_eq (some ctx) R.event_key heap)

  unfoldable pub get_entry_name : Context → Heap R → Asserted String
  unfolding assert_text
  get_entry_name ctx heap = assert_text (read_payload R.key_eq (some ctx) R.entry_name_key heap)

  unfoldable pub get_request_id : Context → Heap R → Asserted String
  unfolding assert_text
  get_request_id ctx heap =
      assert_text (read_payload R.key_eq (some ctx) (R.header_key R.header_request_id) heap)

  unfoldable pub get_trace_id : Context → Heap R → Asserted String
  unfolding assert_text
  get_trace_id ctx heap =
      assert_text (read_payload R.key_eq (some ctx) (R.header_key R.header_trace_id) heap)

  -- `if len(id) > 0 { fields = append(fields, zap.String(name, id)) }`
  unfoldable pub id_field : String → String → List (String × String)
  id_field name id = if str_eq id "" then [] else (name, id) ∷ []

  -- The logger `With` the ids, where there is a logger.
  unfoldable pub logger_with_ids :
      String → String → Asserted (Option R.Logger) → Asserted (Option R.Logger)
  unfolding id_field
  logger_with_ids rid tid (held (some l)) =
      held (some (R.with_fields (id_field "requestId" rid ++ id_field "traceId" tid) l))
  logger_with_ids rid tid (held none) = held none
  logger_with_ids rid tid failed = failed

  -- The ids are read only if there is a value under the logger's key.
  unfoldable pub logger_of :
      Asserted String → Asserted String → Option (Value R) → Asserted (Option R.Logger)
  unfolding assert_logger logger_with_ids
  logger_of rid tid none = held none
  logger_of (held rid) (held tid) (some v) = logger_with_ids rid tid (assert_logger (some v))
  logger_of (held rid) failed (some v) = failed
  logger_of failed tid (some v) = failed

  unfoldable pub get_logger : Context → Heap R → Asserted (Option R.Logger)
  unfolding get_request_id get_trace_id logger_of
  get_logger ctx heap =
      logger_of (get_request_id ctx heap) (get_trace_id ctx heap)
        (read_payload R.key_eq (some ctx) R.logger_key heap)

  -- `v1.(trace.Span)`; without a value, a no-op span.
  unfoldable pub assert_span : Option (Value R) → Asserted (Option R.Span)
  assert_span none = held none
  assert_span (some (span s)) = held (some s)
  assert_span (some _) = failed

  -- `v1.(trace.Tracer)`; without a value, the no-op tracer.
  unfoldable pub assert_tracer : Option (Value R) → Asserted (Option R.Tracer)
  assert_tracer none = held none
  assert_tracer (some (tracer t)) = held (some t)
  assert_tracer (some _) = failed

  -- `v1.(trace.TracerProvider)`; without a value, the no-op provider.
  unfoldable pub assert_tracer_provider : Option (Value R) → Asserted (Option R.TracerProvider)
  assert_tracer_provider none = held none
  assert_tracer_provider (some (tracer_provider p)) = held (some p)
  assert_tracer_provider (some _) = failed

  -- `v1.(propagation.TextMapPropagator)`; without a value, nil.
  unfoldable pub assert_propagator : Option (Value R) → Asserted (Option R.Propagator)
  assert_propagator none = held none
  assert_propagator (some (propagator p)) = held (some p)
  assert_propagator (some _) = failed

  unfoldable pub get_trace_span : Context → Heap R → Asserted (Option R.Span)
  unfolding assert_span
  get_trace_span ctx heap = assert_span (read_payload R.key_eq (some ctx) R.span_key heap)

  unfoldable pub get_tracer : Context → Heap R → Asserted (Option R.Tracer)
  unfolding assert_tracer
  get_tracer ctx heap = assert_tracer (read_payload R.key_eq (some ctx) R.tracer_key heap)

  unfoldable pub get_tracer_provider : Context → Heap R → Asserted (Option R.TracerProvider)
  unfolding assert_tracer_provider
  get_tracer_provider ctx heap =
      assert_tracer_provider (read_payload R.key_eq (some ctx) R.tracer_provider_key heap)

  unfoldable pub get_tracer_propagator : Context → Heap R → Asserted (Option R.Propagator)
  unfolding assert_propagator
  get_tracer_propagator ctx heap =
      assert_propagator (read_payload R.key_eq (some ctx) R.propagator_key heap)

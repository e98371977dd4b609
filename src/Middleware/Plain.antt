-- ===== src/Middleware/Plain.antt =====
-- Libraries as the middleware uses them, with texts and numbers for the objects, that meet what is
-- assumed of them.
use rk_grpc.Prelude.{
  ℕ, String, ◌≡◌, refl, ap, Bool, true, false, Option, none, some, [], str_eq, ◌==◌, if◌then◌else◌,
  arith,
}
use rk_grpc.Boot.ErrorWrapper.{GrpcStatus}
use rk_grpc.Middleware.Access.{Runtime}
use rk_grpc.Middleware.Access.Types.{
  Tag, text_tag, event_tag, logger_tag, span_tag, tracer_tag, tracer_provider_tag, propagator_tag,
  KeyTypes,
}

-- The keys of rk-entry, and the names of headers.
pub data Key : Type 0 where
  slot : ℕ → Key
  header : String → Key

abbrev pub key_eq : Key → Key → Bool
key_eq (slot n) (slot m) = n == m
key_eq (slot n) (header s) = false
key_eq (header r) (slot m) = false
key_eq (header r) (header s) = str_eq r s

-- Panic values are texts without a status, events and loggers are texts, and an error is a status.
abbrev pub runtime : Runtime
runtime = record {
  Recovered = String;
  Error = GrpcStatus;
  Event = String;
  Logger = String;
  Span = ℕ;
  Tracer = ℕ;
  TracerProvider = ℕ;
  Propagator = ℕ;
  Object = ℕ;
  Key = Key;
  grpc_status = λ recv. none;
  sprint = λ recv. recv;
  type_assertion = "interface conversion";
  status_err = λ sts.
      if sts.code == 0
      then none
      else some (record { code = sts.code; message = sts.message; details = [] });
  status_code =
      λ err. elim err [ none ↦ "OK" | some e ↦ if e.code == 13 then "Internal" else "Code" ];
  with_fields = λ fields logger. logger;
  span_trace_id = λ span. if span == 77 then "t77" else "t";
  otel_error = 1;
  otel_ok = (2, "Ok");
  key_eq = key_eq;
  header_key = header;
  entry_name_key = slot 0;
  event_key = slot 1;
  logger_key = slot 2;
  span_key = slot 3;
  tracer_key = slot 4;
  tracer_provider_key = slot 5;
  propagator_key = slot 6;
  header_request_id = "X-Request-Id";
  set_header = λ key value. true;
  header_trace_id = "X-Trace-Id";
}

abbrev slot_type : ℕ → Option Tag
slot_type n =
    if n == 0
    then some text_tag
    else if n == 1
    then some event_tag
    else if n == 2
    then some logger_tag
    else if n == 3
    then some span_tag
    else if n == 4
    then some tracer_tag
    else if n == 5
    then some tracer_provider_tag
    else if n == 6
    then some propagator_tag
    else none

abbrev type_of : Key → Option Tag
type_of (slot n) = slot_type n
type_of (header s) = some text_tag

same_slot : (n m : ℕ) → (n == m) ≡ true → n ≡ m
same_slot n m h = ground arith

pub type_of_eq : (k j : Key) → key_eq k j ≡ true → type_of k ≡ type_of j
type_of_eq (slot n) (slot m) h = ap slot_type (same_slot n m h)
type_of_eq (slot n) (header s) h = absurd (cc h)
type_of_eq (header r) (slot m) h = absurd (cc h)
type_of_eq (header r) (header s) h = refl

abbrev pub key_types : KeyTypes runtime
key_types = record {
  type_of = type_of;
  type_of_eq = type_of_eq;
  entry_name = refl;
  event = refl;
  logger = refl;
  span = refl;
  tracer = refl;
  tracer_provider = refl;
  propagator = refl;
  header = λ name. refl;
}

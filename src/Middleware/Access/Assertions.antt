-- ===== src/Middleware/Access/Assertions.antt =====
-- No assertion of the accessors of middleware/context/context.go fails on a payload whose values have
-- the types of their keys.
use rk_grpc.Prelude.{String, ◌≡◌, refl, ◌≢◌, Option, none, some}
use rk_grpc.Middleware.Payload.{Context}
use rk_grpc.Middleware.Access.{
  Runtime, Value, text, event, logger, span, tracer, tracer_provider, propagator, Heap, Asserted,
  held, failed, assert_event, assert_logger, assert_text, get_event, get_entry_name, get_request_id,
  get_trace_id, logger_with_ids, logger_of, get_logger, assert_span, assert_tracer,
  assert_tracer_provider, assert_propagator, get_trace_span, get_tracer, get_tracer_provider,
  get_tracer_propagator,
}
use rk_grpc.Middleware.Access.Types.{
  KeyTypes, tag_of, text_tag, event_tag, logger_tag, span_tag, tracer_tag, tracer_provider_tag,
  propagator_tag, IsTyped, read_payload-IsTyped,
}

assert_text-ne-failed :
    (R : Runtime) (o : Option (Value R))
    → ((v : Value R) → o ≡ some v → tag_of v ≡ text_tag)
    → assert_text R o ≢ failed
unfolding assert_text tag_of
assert_text-ne-failed R none h e = cc
assert_text-ne-failed R (some (text s)) h e = cc
assert_text-ne-failed R (some v) h e = cc (h v refl)

assert_event-ne-failed :
    (R : Runtime) (o : Option (Value R))
    → ((v : Value R) → o ≡ some v → tag_of v ≡ event_tag)
    → assert_event R o ≢ failed
unfolding assert_event tag_of
assert_event-ne-failed R none h e = cc
assert_event-ne-failed R (some (event x)) h e = cc
assert_event-ne-failed R (some v) h e = cc (h v refl)

assert_logger-ne-failed :
    (R : Runtime) (o : Option (Value R))
    → ((v : Value R) → o ≡ some v → tag_of v ≡ logger_tag)
    → assert_logger R o ≢ failed
unfolding assert_logger tag_of
assert_logger-ne-failed R none h e = cc
assert_logger-ne-failed R (some (logger x)) h e = cc
assert_logger-ne-failed R (some v) h e = cc (h v refl)

assert_span-ne-failed :
    (R : Runtime) (o : Option (Value R))
    → ((v : Value R) → o ≡ some v → tag_of v ≡ span_tag)
    → assert_span R o ≢ failed
unfolding assert_span tag_of
assert_span-ne-failed R none h e = cc
assert_span-ne-failed R (some (span x)) h e = cc
assert_span-ne-failed R (some v) h e = cc (h v refl)

assert_tracer-ne-failed :
    (R : Runtime) (o : Option (Value R))
    → ((v : Value R) → o ≡ some v → tag_of v ≡ tracer_tag)
    → assert_tracer R o ≢ failed
unfolding assert_tracer tag_of
assert_tracer-ne-failed R none h e = cc
assert_tracer-ne-failed R (some (tracer x)) h e = cc
assert_tracer-ne-failed R (some v) h e = cc (h v refl)

assert_tracer_provider-ne-failed :
    (R : Runtime) (o : Option (Value R))
    → ((v : Value R) → o ≡ some v → tag_of v ≡ tracer_provider_tag)
    → assert_tracer_provider R o ≢ failed
unfolding assert_tracer_provider tag_of
assert_tracer_provider-ne-failed R none h e = cc
assert_tracer_provider-ne-failed R (some (tracer_provider x)) h e = cc
assert_tracer_provider-ne-failed R (some v) h e = cc (h v refl)

assert_propagator-ne-failed :
    (R : Runtime) (o : Option (Value R))
    → ((v : Value R) → o ≡ some v → tag_of v ≡ propagator_tag)
    → assert_propagator R o ≢ failed
unfolding assert_propagator tag_of
assert_propagator-ne-failed R none h e = cc
assert_propagator-ne-failed R (some (propagator x)) h e = cc
assert_propagator-ne-failed R (some v) h e = cc (h v refl)

module _ {R : Runtime} (T : KeyTypes R) where
  pub get_event-ne-failed :
      (ctx : Context) (heap : Heap R) → IsTyped T heap → get_event R ctx heap ≢ failed
  unfolding get_event
  get_event-ne-failed ctx heap h =
      assert_event-ne-failed R _
        λ v e. read_payload-IsTyped T ctx (R.event_key) v event_tag heap h (T.event) e

  get_entry_name-ne-failed :
      (ctx : Context) (heap : Heap R) → IsTyped T heap → get_entry_name R ctx heap ≢ failed
  unfolding get_entry_name
  get_entry_name-ne-failed ctx heap h =
      assert_text-ne-failed R _
        λ v e. read_payload-IsTyped T ctx (R.entry_name_key) v text_tag heap h (T.entry_name) e

  pub get_request_id-ne-failed :
      (ctx : Context) (heap : Heap R) → IsTyped T heap → get_request_id R ctx heap ≢ failed
  unfolding get_request_id
  get_request_id-ne-failed ctx heap h = assert_text-ne-failed R _ λ v e.
      read_payload-IsTyped T ctx (R.header_key R.header_request_id) v text_tag heap h
        (T.header R.header_request_id) e

  pub get_trace_id-ne-failed :
      (ctx : Context) (heap : Heap R) → IsTyped T heap → get_trace_id R ctx heap ≢ failed
  unfolding get_trace_id
  get_trace_id-ne-failed ctx heap h = assert_text-ne-failed R _ λ v e.
      read_payload-IsTyped T ctx (R.header_key R.header_trace_id) v text_tag heap h
        (T.header R.header_trace_id) e

  get_trace_span-ne-failed :
      (ctx : Context) (heap : Heap R) → IsTyped T heap → get_trace_span R ctx heap ≢ failed
  unfolding get_trace_span
  get_trace_span-ne-failed ctx heap h =
      assert_span-ne-failed R _
        λ v e. read_payload-IsTyped T ctx (R.span_key) v span_tag heap h (T.span) e

  get_tracer-ne-failed :
      (ctx : Context) (heap : Heap R) → IsTyped T heap → get_tracer R ctx heap ≢ failed
  unfolding get_tracer
  get_tracer-ne-failed ctx heap h =
      assert_tracer-ne-failed R _
        λ v e. read_payload-IsTyped T ctx (R.tracer_key) v tracer_tag heap h (T.tracer) e

  get_tracer_provider-ne-failed :
      (ctx : Context) (heap : Heap R) → IsTyped T heap → get_tracer_provider R ctx heap ≢ failed
  unfolding get_tracer_provider
  get_tracer_provider-ne-failed ctx heap h = assert_tracer_provider-ne-failed R _ λ v e.
      read_payload-IsTyped T ctx (R.tracer_provider_key) v tracer_provider_tag heap h
        (T.tracer_provider) e

  get_tracer_propagator-ne-failed :
      (ctx : Context) (heap : Heap R) → IsTyped T heap → get_tracer_propagator R ctx heap ≢ failed
  unfolding get_tracer_propagator
  get_tracer_propagator-ne-failed ctx heap h =
      assert_propagator-ne-failed R _ λ v e.
        read_payload-IsTyped T ctx (R.propagator_key) v propagator_tag heap h (T.propagator) e

  logger_with_ids-ne-failed :
      (rid tid : String) (a : Asserted (Option R.Logger))
      → a ≢ failed
      → logger_with_ids R rid tid a ≢ failed
  unfolding logger_with_ids
  logger_with_ids-ne-failed rid tid (held (some l)) h e = cc
  logger_with_ids-ne-failed rid tid (held none) h e = cc
  logger_with_ids-ne-failed rid tid failed h e = h refl

  logger_of-ne-failed :
      (rid tid : Asserted String) (o : Option (Value R))
      → rid ≢ failed
      → tid ≢ failed
      → assert_logger R o ≢ failed
      → logger_of R rid tid o ≢ failed
  unfolding logger_of
  logger_of-ne-failed rid tid none hr ht hl e = cc
  logger_of-ne-failed (held rid) (held tid) (some v) hr ht hl e =
      logger_with_ids-ne-failed rid tid _ hl e
  logger_of-ne-failed (held rid) failed (some v) hr ht hl e = ht refl
  logger_of-ne-failed failed tid (some v) hr ht hl e = hr refl

  pub get_logger-ne-failed :
      (ctx : Context) (heap : Heap R) → IsTyped T heap → get_logger R ctx heap ≢ failed
  unfolding get_logger
  get_logger-ne-failed ctx heap h =
      logger_of-ne-failed _ _ _ (get_request_id-ne-failed ctx heap h)
        (get_trace_id-ne-failed ctx heap h)
        (assert_logger-ne-failed R _
          λ v e. read_payload-IsTyped T ctx R.logger_key v logger_tag heap h T.logger e)

  -- Where every value in the payloads has the type of its key, none of the nine accessors panics,
  -- whatever the context.
  pub accessors_never_panic :
      (ctx : Context) (heap : Heap R)
      → IsTyped T heap
      → (get_event R ctx heap ≢ failed)
        × (get_logger R ctx heap ≢ failed)
        × (get_entry_name R ctx heap ≢ failed)
        × (get_request_id R ctx heap ≢ failed)
        × (get_trace_id R ctx heap ≢ failed)
        × (get_trace_span R ctx heap ≢ failed)
        × (get_tracer R ctx heap ≢ failed)
        × (get_tracer_provider R ctx heap ≢ failed)
        × (get_tracer_propagator R ctx heap ≢ failed)
  accessors_never_panic ctx heap h = (
    get_event-ne-failed ctx heap h,
    get_logger-ne-failed ctx heap h,
    get_entry_name-ne-failed ctx heap h,
    get_request_id-ne-failed ctx heap h,
    get_trace_id-ne-failed ctx heap h,
    get_trace_span-ne-failed ctx heap h,
    get_tracer-ne-failed ctx heap h,
    get_tracer_provider-ne-failed ctx heap h,
    get_tracer_propagator-ne-failed ctx heap h,
  )

-- ===== src/Middleware/Panic/Laws.antt =====
-- Of the interceptors of middleware/panic/interceptor.go: what a panic becomes, and what the
-- handler sees of the payload.
use rk_grpc.Prelude.{String, ◌≡◌, refl, ap, true, false, Option, none, some}
use rk_grpc.Middleware.Payload.{Context}
use rk_grpc.Middleware.Payload.Laws.{IsAllocated, wrap_context_for_server-then_add, read_unwrapped}
use rk_grpc.Middleware.Access.{
  Runtime, Value, text, Heap, Asserted, held, get_event, get_logger, get_entry_name, assert_text,
}
use rk_grpc.Middleware.Handler.{
  World, panic_counted, panic_logged, returned, panicked, UnaryHandler, ServerStream, stream_after,
  enter, note, add_to_payload,
}
use rk_grpc.Middleware.Panic.{
  recovered_status, log_panic, report_panic, recover, unary_server_interceptor,
  stream_server_interceptor,
}

module _ (R : Runtime) {A : Type 0} where
  -- On a stream that an earlier interceptor has wrapped, the stream interceptor does what the unary
  -- one does on the stream's context.
  stream_server_interceptor-unary :
      (entry_name : String) (handler : UnaryHandler R A) (ctx : Context) (w : World R)
      → stream_server_interceptor R entry_name
          (λ stream. handler stream.context)
          (record { context = ctx; is_wrapped = true })
          w
        ≡ unary_server_interceptor R entry_name handler ctx w
  unfolding stream_server_interceptor unary_server_interceptor stream_after
  stream_server_interceptor-unary entry_name handler ctx w = refl

module _ (R : Runtime) where
  -- A context without a payload has neither event nor logger.
  get_event-unwrapped : (heap : Heap R) → get_event R (record { payload = none }) heap ≡ held none
  unfolding get_event
  get_event-unwrapped heap = rw (read_unwrapped R.key_eq R.event_key heap)

  get_logger-unwrapped : (heap : Heap R) → get_logger R (record { payload = none }) heap ≡ held none
  unfolding get_logger
  get_logger-unwrapped heap = rw (read_unwrapped R.key_eq R.logger_key heap)

module _ (R : Runtime) (A : Type 0) where
  report_panic-unwrapped :
      (err : Option R.Error) (w : World R)
      → report_panic R {A = A}
          (record { payload = none })
          err
          (get_event R (record { payload = none }) w.heap)
          w
        ≡ (returned none err, note R (panic_logged none err) (note R (panic_counted none) w))
  unfolding report_panic
  report_panic-unwrapped err w =
      rw (get_event-unwrapped R w.heap, report_panic)
        (ap (λ (l : Asserted (Option R.Logger)). log_panic R err l (note R (panic_counted none) w))
          (get_logger-unwrapped R w.heap))

  -- On a bare stream whose context is not wrapped, whatever the handler does to the world before it
  -- panics, the stream interceptor returns the error of the panic's status, and its recovery finds
  -- neither event nor logger to report to.
  bare_stream_reports_nowhere :
      (entry_name : String) (change : World R → World R) (recv : R.Recovered) (w : World R)
      → let err = R.status_err (recovered_status R recv) in
        let bare : ServerStream = record {
          context = record { payload = none };
          is_wrapped = false;
        } in
        stream_server_interceptor R {A = A} entry_name
          (λ stream w'. (panicked recv, change w'))
          bare
          w
        ≡ (
          returned none err,
          note R
              (panic_logged none err)
              (note R (panic_counted none) (change (enter R entry_name bare.context w).1)),
        )
  unfolding stream_server_interceptor stream_after recover
  bare_stream_reports_nowhere entry_name change recv w =
      report_panic-unwrapped (R.status_err (recovered_status R recv))
        (change (enter R entry_name (record { payload = none }) w).1)

module _ (R : Runtime) where
  -- A handler that answers with the entry name that it reads.
  abbrev answer_entry_name : UnaryHandler R (Asserted String)
  answer_entry_name ctx w = (returned (some (get_entry_name R ctx w.heap)) none, w)

  -- Behind the unary interceptor a handler reads the name of the entry, whatever the context,
  -- where its map is in the heap; behind the stream interceptor, on a bare stream whose context is
  -- not wrapped, it reads none.
  unary_handler_reads_entry_name :
      (entry_name : String) (ctx : Context) (w : World R)
      → IsAllocated ctx w.heap
      → R.key_eq R.entry_name_key R.entry_name_key ≡ true
      → let bare : ServerStream = record {
        context = record { payload = none };
        is_wrapped = false;
      } in
        ((unary_server_interceptor R entry_name answer_entry_name ctx w).0
          ≡ returned (some (held entry_name)) none)
        × ((stream_server_interceptor R entry_name
              (λ stream. answer_entry_name stream.context)
              bare
              w).0
            ≡ returned (some (held "")) none)
  unfolding unary_server_interceptor stream_server_interceptor stream_after recover enter
      get_entry_name add_to_payload assert_text
  unary_handler_reads_entry_name entry_name ctx w h same =
      let (c, al, again, read) =
        wrap_context_for_server-then_add R.key_eq ctx R.entry_name_key (text entry_name) w.heap h
          same in
      (
        ap (λ (v : Option (Value R)). returned (some (assert_text R v)) none) read,
        ap (λ (v : Option (Value R)). returned (some (assert_text R v)) none)
            (read_unwrapped R.key_eq R.entry_name_key _),
      )

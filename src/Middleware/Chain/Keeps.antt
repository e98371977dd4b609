-- ===== src/Middleware/Chain/Keeps.antt =====
-- What the interceptors of middleware/ do before and after the handler keeps the payloads typed.
use rk_grpc.Prelude.{Bool, true, false, String, ◌≡◌, Option, none, some, List, [], ◌∷◌}
use rk_grpc.Boot.ErrorWrapper.{StatusPackage}
use rk_grpc.Middleware.Payload.{Context, wrap_context_for_server}
use rk_grpc.Middleware.Access.{
  get_logger, Runtime, Value, text, event, logger, span, tracer, tracer_provider, propagator,
  Asserted, held, failed,
}
use rk_grpc.Middleware.Access.Types.{
  KeyTypes, tag_of, IsTyped, wrap_context_for_server-IsTyped, add_to_server_context_payload-IsTyped,
}
use rk_grpc.Middleware.Log.{Call, LogSet, LogInput, before_call, close_call, after_call}
use rk_grpc.Middleware.Panic.{recover, report_panic, log_panic}
use rk_grpc.Middleware.Info.{Paths}
use rk_grpc.Middleware.Trace.{
  TraceSet, enter_trace, add_span, add_stream_span, end_span, end_stream_span,
}
use rk_grpc.Middleware.Prom.{measure_call}
use rk_grpc.Middleware.Handler.{
  after_set_header, World, Handled, panic_counted, returned, panicked, add_to_payload,
  add_header_to_client, add_headers_to_client, enter, note,
}

module _ {R : Runtime} (T : KeyTypes R) where
  abbrev pub TypedWorld : World R → Type 0
  TypedWorld w = IsTyped T w.heap

  pub add_to_payload-IsTyped :
      (ctx : Context) (k : R.Key) (v : Value R) (w : World R)
      → T.type_of k ≡ some (tag_of v)
      → TypedWorld w
      → TypedWorld (add_to_payload R ctx k v w)
  unfolding add_to_payload
  add_to_payload-IsTyped ctx k v w e h = add_to_server_context_payload-IsTyped T ctx k v w.heap e h

  pub enter-IsTyped :
      (name : String) (ctx : Context) (w : World R)
      → TypedWorld w
      → TypedWorld (enter R name ctx w).1
  unfolding enter add_to_payload tag_of
  enter-IsTyped name ctx w h =
      let (wrapped, heap) = wrap_context_for_server ctx w.heap in
      add_to_server_context_payload-IsTyped T wrapped R.entry_name_key (text name) heap T.entry_name
        (wrap_context_for_server-IsTyped T ctx w.heap h)

  module _ {A : Type 0} where
    -- What is done next keeps the payloads typed.
    abbrev pub KeepsNext : (World R → Handled R A × World R) → Type 0
    KeepsNext next = (w : World R) → TypedWorld w → TypedWorld (next w).1

    after_set_header-IsTyped :
        (ok : Bool) (l : Asserted (Option R.Logger)) (ctx : Context) (key value : String)
        (w : World R) (next : World R → Handled R A × World R)
        → TypedWorld w
        → KeepsNext next
        → TypedWorld (after_set_header R ok l ctx (key, value) w next).1
    unfolding after_set_header add_to_payload tag_of note
    after_set_header-IsTyped true l ctx key value w next t n = n _ (
        add_to_server_context_payload-IsTyped T ctx (R.header_key key) (text value) w.heap
          (T.header key) t)
    after_set_header-IsTyped false (held l) ctx key value w next t n = n _ (
        add_to_server_context_payload-IsTyped T ctx (R.header_key key) (text value) w.heap
          (T.header key) t)
    after_set_header-IsTyped false failed ctx key value w next t n = t

    pub add_header_to_client-IsTyped :
        (ctx : Context) (key value : String) (w : World R) (next : World R → Handled R A × World R)
        → TypedWorld w
        → KeepsNext next
        → TypedWorld (add_header_to_client R ctx (key, value) w next).1
    unfolding add_header_to_client
    add_header_to_client-IsTyped ctx key value w next t n =
        after_set_header-IsTyped (R.set_header key value) (get_logger R ctx w.heap) ctx key value w
          next t n

    pub add_headers_to_client-IsTyped :
        (ctx : Context) (headers : List (String × String)) (w : World R)
        (next : World R → Handled R A × World R)
        → TypedWorld w
        → KeepsNext next
        → TypedWorld (add_headers_to_client R ctx headers w next).1
    unfolding add_headers_to_client
    add_headers_to_client-IsTyped ctx [] w next t n = n w t
    add_headers_to_client-IsTyped ctx ((k, v) ∷ hs) w next t n =
        add_header_to_client-IsTyped ctx k v w _ t
          (λ w' t'. add_headers_to_client-IsTyped ctx hs w' next t' n)

  pub before_call-IsTyped :
      (set : LogSet R) (input : LogInput) (ctx : Context) (w : World R)
      → TypedWorld w
      → TypedWorld (before_call R set input ctx w).1
  unfolding before_call tag_of
  before_call-IsTyped set input ctx w h =
      let (wrapped, w') = enter R set.entry_name ctx w in
      let (ev, log) = set.before input in
      let w'' = add_to_payload R wrapped R.event_key (event ev) w' in
      add_to_payload-IsTyped wrapped R.logger_key (logger log) w'' T.logger (
        add_to_payload-IsTyped wrapped R.event_key (event ev) w' T.event
          (enter-IsTyped set.entry_name ctx w h))

  pub enter_trace-IsTyped :
      (P : Paths) (set : TraceSet R) (call : Call) (ctx : Context) (w : World R)
      → TypedWorld w
      → TypedWorld (enter_trace R P set call ctx w).1
  unfolding enter_trace tag_of
  enter_trace-IsTyped P set call ctx w h =
      let (wrapped, w') = enter R set.entry_name ctx w in
      let with_tracer = add_to_payload R wrapped R.tracer_key (tracer set.tracer) w' in
      let with_provider =
        add_to_payload R wrapped R.tracer_provider_key (tracer_provider set.provider) with_tracer in
      add_to_payload-IsTyped wrapped R.propagator_key (propagator set.propagator) with_provider
        T.propagator
        (add_to_payload-IsTyped wrapped R.tracer_provider_key (tracer_provider set.provider)
          with_tracer T.tracer_provider
          (add_to_payload-IsTyped wrapped R.tracer_key (tracer set.tracer) w' T.tracer
            (enter-IsTyped set.entry_name ctx w h)))

  pub add_stream_span-IsTyped :
      (ctx : Context) (s : Option R.Span) (w : World R)
      → TypedWorld w
      → TypedWorld (add_stream_span R ctx s w)
  unfolding add_stream_span tag_of
  add_stream_span-IsTyped ctx none w h = h
  add_stream_span-IsTyped ctx (some s) w h =
      add_to_payload-IsTyped ctx R.span_key (span s) w T.span h

  pub add_span-IsTyped :
      {A : Type 0} (ctx : Context) (s : Option R.Span) (w : World R)
      (next : World R → Handled R A × World R)
      → TypedWorld w
      → ((w' : World R) → TypedWorld w' → TypedWorld (next w').1)
      → TypedWorld (add_span R ctx s w next).1
  unfolding add_span tag_of
  add_span-IsTyped ctx none w next h n = n w h
  add_span-IsTyped ctx (some s) w next h n =
      add_header_to_client-IsTyped ctx R.header_trace_id (R.span_trace_id s)
        (add_to_payload R ctx R.span_key (span s) w) next
        (add_to_payload-IsTyped ctx R.span_key (span s) w T.span h) n

  module _ (A : Type 0) where
    pub log_panic-IsTyped :
        (err : Option R.Error) (l : Asserted (Option R.Logger)) (w : World R)
        → TypedWorld w
        → TypedWorld (log_panic R {A = A} err l w).1
    unfolding log_panic note
    log_panic-IsTyped err (held l) w h = h
    log_panic-IsTyped err failed w h = h

    pub report_panic-IsTyped :
        (ctx : Context) (err : Option R.Error) (e : Asserted (Option R.Event)) (w : World R)
        → TypedWorld w
        → TypedWorld (report_panic R {A = A} ctx err e w).1
    unfolding report_panic note
    report_panic-IsTyped ctx err (held e) w h =
        log_panic-IsTyped err _ (note R (panic_counted e) w) h
    report_panic-IsTyped ctx err failed w h = h

  module _ {A : Type 0} where
    pub close_call-IsTyped :
        (resp : Option A) (err : Option R.Error) (rid tid : Asserted String) (w : World R)
        → TypedWorld w
        → TypedWorld (close_call R resp err rid tid w).1
    unfolding close_call note
    close_call-IsTyped resp err (held rid) (held tid) w h = h
    close_call-IsTyped resp err (held rid) failed w h = h
    close_call-IsTyped resp err failed tid w h = h

    pub after_call-IsTyped :
        (ctx : Context) (end : Handled R A × World R)
        → TypedWorld end.1
        → TypedWorld (after_call R ctx end).1
    unfolding after_call
    after_call-IsTyped ctx (returned resp err, w) h = close_call-IsTyped resp err _ _ w h
    after_call-IsTyped ctx (panicked recv, w) h = h

    pub recover-IsTyped :
        (ctx : Context) (end : Handled R A × World R)
        → TypedWorld end.1
        → TypedWorld (recover R ctx end).1
    unfolding recover
    recover-IsTyped ctx (returned resp err, w) h = h
    recover-IsTyped ctx (panicked recv, w) h = report_panic-IsTyped A ctx _ _ w h

    pub measure_call-IsTyped :
        (labels : List String) (end : Handled R A × World R)
        → TypedWorld end.1
        → TypedWorld (measure_call R labels end).1
    unfolding measure_call note
    measure_call-IsTyped labels (returned resp err, w) h = h
    measure_call-IsTyped labels (panicked recv, w) h = h

    pub end_span-IsTyped :
        (S : StatusPackage R.Error) (s : Option R.Span) (end : Handled R A × World R)
        → TypedWorld end.1
        → TypedWorld (end_span R S s end).1 × TypedWorld (end_stream_span R S s end).1
    unfolding end_span end_stream_span note
    end_span-IsTyped S s (returned resp (some err), w) h = (h, h)
    end_span-IsTyped S s (returned resp none, w) h = (h, h)
    end_span-IsTyped S s (panicked recv, w) h = (h, h)

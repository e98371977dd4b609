-- ===== src/Middleware/Chain/Recovery.antt =====
-- Of the chain of interceptors that boot/grpc_entry.go builds: no panic of what is behind the panic
-- interceptor leaves it, and the log has the code of the error that the client is given.
use rk_grpc.Prelude.{
  String, ◌⊎◌, inl, inr, ◌≡◌, refl, ap, Bool, true, false, Option, List, [], ◌∷◌, ◌++◌, map,
}
use rk_grpc.Middleware.Payload.{Context}
use rk_grpc.Middleware.Access.{
  Runtime, Asserted, held, failed, get_event, get_logger, get_request_id, get_trace_id,
}
use rk_grpc.Middleware.Log
use rk_grpc.Middleware.Info.{Paths}
use rk_grpc.Middleware.Log.{Call, LogSet, log_input, close_call, after_call, before_call}
use rk_grpc.Middleware.Panic
use rk_grpc.Middleware.Panic.{recovered_status, log_panic, report_panic, recover}
use rk_grpc.Middleware.Handler.{
  World, Note, call_logged, panic_counted, Handled, returned, panicked, UnaryHandler, enter, note,
}
use rk_grpc.Middleware.Chain.{
  Kind, logging, panics, prom, trace, jwt, meta, auth, timeout, rate_limit, MiddlewareConfig,
  add_if, unary_interceptors, chain, Sets, interceptor_of, registered_handler,
}

-- What is added behind an interceptor stays behind it.
pub add_if-behind :
    (enabled : Bool) (k p : Kind) (xs ys : List Kind)
    → add_if enabled k (xs ++ p ∷ ys) ≡ xs ++ p ∷ add_if enabled k ys
unfolding add_if
add_if-behind true k p [] ys = refl
add_if-behind true k p (x ∷ xs) ys = ap (λ (l : List Kind). x ∷ l) (add_if-behind true k p xs ys)
add_if-behind false k p xs ys = refl

-- The interceptors behind the one for panics.
unfoldable pub inner_kinds : MiddlewareConfig → List Kind
inner_kinds m = add_if m.rate_limit_enabled rate_limit (
    add_if m.timeout_enabled timeout (
      add_if m.auth_enabled auth (
        add_if m.meta_enabled meta (
          add_if m.jwt_enabled jwt
            (add_if m.trace_enabled trace (add_if m.prom_enabled prom []))))))

pub unary_interceptors-outer :
    (m : MiddlewareConfig)
    → unary_interceptors m ≡ add_if m.logging_enabled logging [] ++ panics ∷ inner_kinds m
unfolding unary_interceptors inner_kinds
unary_interceptors-outer m = simp add_if-behind

module _ (R : Runtime) where
  -- The panic of an accessor of the interceptors: the payload of a context, in the world that the
  -- call ends in, has a value of another type under the accessor's key.
  abbrev pub IsFailedAssertion : R.Recovered → World R → Type 0
  IsFailedAssertion recv w =
      (ctx : Context) × (recv ≡ R.type_assertion)
      × ((get_event R ctx w.heap ≡ failed)
          ⊎ (get_logger R ctx w.heap ≡ failed)
          ⊎ (get_request_id R ctx w.heap ≡ failed)
          ⊎ (get_trace_id R ctx w.heap ≡ failed))

module _ (R : Runtime) {A : Type 0} where
  -- It returns, or it panics by an accessor whose type assertion fails.
  abbrev pub Recovers : Handled R A × World R → Type 0
  Recovers (returned resp err, w) = Unit
  Recovers (panicked recv, w) = IsFailedAssertion R recv w

  -- It returns, and the last note logs the code of the error that it returns; or it panics so.
  abbrev pub IsLogged : Handled R A × World R → Type 0
  IsLogged (returned resp err, w) =
      (rid : String) × (tid : String) × (before : List (Note R)) × (w.notes
        ≡ call_logged rid tid (R.status_code err) ∷ before)
  IsLogged (panicked recv, w) = IsFailedAssertion R recv w

module _ (R : Runtime) (A : Type 0) where
  log_panic-Recovers :
      (ctx : Context) (err : Option R.Error) (logger : Asserted (Option R.Logger)) (w : World R)
      → get_logger R ctx w.heap ≡ logger
      → Recovers R (log_panic R {A = A} err logger w)
  unfolding log_panic
  log_panic-Recovers ctx err (held logger) w h = tt
  log_panic-Recovers ctx err failed w h = (ctx, refl, inr (inl h))

  report_panic-Recovers :
      (ctx : Context) (err : Option R.Error) (event : Asserted (Option R.Event)) (w : World R)
      → get_event R ctx w.heap ≡ event
      → Recovers R (report_panic R {A = A} ctx err event w)
  unfolding report_panic
  report_panic-Recovers ctx err (held event) w h =
      log_panic-Recovers ctx err _ (note R (panic_counted event) w) refl
  report_panic-Recovers ctx err failed w h = (ctx, refl, inl h)

  recover-Recovers :
      (ctx : Context) (end : Handled R A) (w : World R) → Recovers R (recover R ctx (end, w))
  unfolding recover
  recover-Recovers ctx (returned resp err) w = tt
  recover-Recovers ctx (panicked recv) w =
      report_panic-Recovers ctx (R.status_err (recovered_status R recv)) _ w refl

module _ (R : Runtime) {A : Type 0} where
  Recovers-IsLogged : (end : Handled R A × World R) → IsLogged R end → Recovers R end
  Recovers-IsLogged (returned resp err, w) h = tt
  Recovers-IsLogged (panicked recv, w) h = h

  close_call-IsLogged :
      (ctx : Context) (resp : Option A) (err : Option R.Error) (rid tid : Asserted String)
      (w : World R)
      → get_request_id R ctx w.heap ≡ rid
      → get_trace_id R ctx w.heap ≡ tid
      → IsLogged R (close_call R resp err rid tid w)
  unfolding close_call note
  close_call-IsLogged ctx resp err (held rid) (held tid) w hr ht = (rid, tid, w.notes, refl)
  close_call-IsLogged ctx resp err (held rid) failed w hr ht = (ctx, refl, inr (inr (inr ht)))
  close_call-IsLogged ctx resp err failed tid w hr ht = (ctx, refl, inr (inr (inl hr)))

  after_call-IsLogged :
      (ctx : Context) (end : Handled R A × World R)
      → Recovers R end
      → IsLogged R (after_call R ctx end)
  unfolding after_call
  after_call-IsLogged ctx (returned resp err, w) h =
      close_call-IsLogged ctx resp err _ _ w refl refl
  after_call-IsLogged ctx (panicked recv, w) h = h

  panic-Recovers :
      (entry_name : String) (handler : UnaryHandler R A) (ctx : Context) (w : World R)
      → Recovers R (Panic.unary_server_interceptor R entry_name handler ctx w)
  unfolding Panic.unary_server_interceptor
  panic-Recovers entry_name handler ctx w =
      let (wrapped, w') = enter R entry_name ctx w in
      let end = handler wrapped w' in recover-Recovers R A wrapped end.0 end.1

  log-IsLogged :
      (P : Paths) (set : LogSet R) (call : Call) (handler : UnaryHandler R A)
      → ((ctx : Context) (w : World R) → Recovers R (handler ctx w))
      → (ctx : Context) (w : World R)
      → IsLogged R (Log.unary_server_interceptor R P set call handler ctx w)
  unfolding Log.unary_server_interceptor
  log-IsLogged P set call handler h ctx w =
      let (wrapped, w') = before_call R set (log_input P "UnaryServer" call) ctx w in
      after_call-IsLogged wrapped (handler wrapped w') (h wrapped w')

  module _ (s : Sets R) (call : Call) (handler : UnaryHandler R A) (ctx : Context)
      (w : World R) where
    outer_panics-Recovers :
        (inner : List Kind)
        → Recovers R (chain (map (interceptor_of R s call) (panics ∷ inner)) handler ctx w)
    unfolding chain interceptor_of
    outer_panics-Recovers inner =
        panic-Recovers s.entry_name (chain (map (interceptor_of R s call) inner) handler) ctx w

    outer_logging-IsLogged :
        (inner : List Kind)
        → IsLogged R
            (chain (map (interceptor_of R s call) (logging ∷ panics ∷ inner)) handler ctx w)
    unfolding chain interceptor_of
    outer_logging-IsLogged inner =
        log-IsLogged s.paths s.log_set call
          (Panic.unary_server_interceptor R s.entry_name
            (chain (map (interceptor_of R s call) inner) handler))
          (panic-Recovers s.entry_name (chain (map (interceptor_of R s call) inner) handler)) ctx w

    outer-Recovers :
        (log : Bool) (inner : List Kind)
        → Recovers R (
            chain
              (map (interceptor_of R s call) (add_if log logging [] ++ panics ∷ inner))
              handler
              ctx
              w)
    unfolding add_if
    outer-Recovers true inner = Recovers-IsLogged _ (outer_logging-IsLogged inner)
    outer-Recovers false inner = outer_panics-Recovers inner

    -- Whatever is configured, and whatever the interceptors behind the one for panics and the
    -- service's handler do, a call returns; it panics only with a failed type assertion, where the
    -- payload of a context, in the world that the call ends in, has a value of another type under
    -- the key of the event, the logger, the request id or the trace id.
    pub registered_handler-Recovers :
        (m : MiddlewareConfig) → Recovers R (registered_handler R s call m handler ctx w)
    unfolding registered_handler
    registered_handler-Recovers m =
        rw (unary_interceptors-outer m, registered_handler)
          (outer-Recovers m.logging_enabled (inner_kinds m))

    -- With logging enabled, whatever the handler does, a call returns with the log of the call as
    -- the last thing written, which has the code of the very error that the client is given; it
    -- panics only with a failed type assertion, where the payload of a context, in the world that
    -- the call ends in, has a value of another type under the key of the event, the logger, the
    -- request id or the trace id.
    pub registered_handler-IsLogged :
        (m : MiddlewareConfig)
        → m.logging_enabled ≡ true
        → IsLogged R (registered_handler R s call m handler ctx w)
    unfolding registered_handler add_if inner_kinds
    registered_handler-IsLogged m enabled =
        rw (unary_interceptors-outer m, registered_handler)
          (rw (enabled, add_if) (outer_logging-IsLogged (inner_kinds m)))

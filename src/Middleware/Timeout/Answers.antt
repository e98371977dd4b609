-- ===== src/Middleware/Timeout/Answers.antt =====
-- What a call is answered where middleware/timeout/server_interceptor.go waits for it.
use rk_grpc.Prelude.{
  ◌≡◌, refl, ◌≢◌, true, Option, none, some, List, [], ◌∷◌, ◌++◌, All, sym, Option-cases, inl, inr,
  arith,
}
use rk_grpc.Boot.ErrorWrapper.{StatusPackage, StatusLaws, canceled, own_detail}
use rk_grpc.Boot.ErrorWrapper.Details.{base_error_wrapper-err}
use rk_grpc.Middleware.Payload.{Context}
use rk_grpc.Middleware.Access.{Runtime, held, get_event}
use rk_grpc.Middleware.Log.{Call}
use rk_grpc.Middleware.Handler.{World, Handled, returned, panicked, UnaryHandler, enter}
use rk_grpc.Middleware.Timeout.{
  Callback, next_handler, timeout_handler, TimeoutSet, default_response, after_next, wait_func,
  wait_with_event, timeout_interceptor,
}

-- A function that does nothing to the answer.
abbrev pub IsIdle : Callback → Type 0
IsIdle c = (c ≢ next_handler) × (c ≢ timeout_handler)

module _ (R : Runtime) (S : StatusPackage R.Error) {A : Type 0} where
  module _ (passes_on : R.Recovered → Option R.Recovered)
      (next : World R → Handled R A × World R) where
    wait_func-idle :
        (cs : List Callback) (end : Handled R A × World R)
        → All IsIdle cs
        → wait_func R S passes_on next cs end ≡ end
    unfolding wait_func
    wait_func-idle [] end h = refl
    wait_func-idle (c ∷ cs) (panicked recv, w) h = refl
    wait_func-idle (next_handler ∷ cs) (returned resp err, w) h = absurd (h.0.0 refl)
    wait_func-idle (timeout_handler ∷ cs) (returned resp err, w) h = absurd (h.0.1 refl)
    wait_func-idle (c ∷ cs) (returned resp err, w) h = wait_func-idle cs (returned resp err, w) h.1

    wait_func-panicked :
        (cs : List Callback) (recv : R.Recovered) (w : World R)
        → wait_func R S passes_on next cs (panicked recv, w) ≡ (panicked recv, w)
    unfolding wait_func
    wait_func-panicked [] recv w = refl
    wait_func-panicked (c ∷ cs) recv w = refl

    after_next-append :
        (cs ds : List Callback)
        → ((e : Handled R A × World R)
            → wait_func R S passes_on next (cs ++ ds) e
              ≡ wait_func R S passes_on next ds (wait_func R S passes_on next cs e))
        → (resp : Option A) (err : Option R.Error) (end : Handled R A × World R)
        → after_next R S passes_on (wait_func R S passes_on next (cs ++ ds)) resp err end
          ≡ wait_func R S passes_on next ds
              (after_next R S passes_on (wait_func R S passes_on next cs) resp err end)
    unfolding after_next
    after_next-append cs ds h resp err (returned resp' err', w) = h (returned resp' err', w)
    after_next-append cs ds h resp err (panicked recv, w) = elim (Option-cases (passes_on recv)) [
      | inl e ↦ rw (e, after_next) (h (returned resp err, w))
      | inr (recv', e) ↦ rw (e, after_next) (sym (wait_func-panicked ds recv' w))
    ]

    wait_func-append :
        (cs ds : List Callback) (end : Handled R A × World R)
        → wait_func R S passes_on next (cs ++ ds) end
          ≡ wait_func R S passes_on next ds (wait_func R S passes_on next cs end)
    unfolding wait_func
    wait_func-append [] ds end = refl
    wait_func-append (c ∷ cs) ds (panicked recv, w) = sym (wait_func-panicked ds recv w)
    wait_func-append (next_handler ∷ cs) ds (returned resp err, w) =
        after_next-append cs ds (wait_func-append cs ds) resp err (next w)
    wait_func-append (timeout_handler ∷ cs) ds (returned resp err, w) =
        wait_func-append cs ds (returned resp (default_response R S), w)
    wait_func-append (c ∷ cs) ds (returned resp err, w) =
        wait_func-append cs ds (returned resp err, w)

    wait_func-timed_out :
        (before after : List Callback) (end : Handled R A × World R) (resp : Option A)
        (err : Option R.Error) (w : World R)
        → All IsIdle after
        → wait_func R S passes_on next before end ≡ (returned resp err, w)
        → wait_func R S passes_on next (before ++ timeout_handler ∷ after) end
          ≡ (returned resp (default_response R S), w)
    unfolding wait_func
    wait_func-timed_out before after end resp err w idle ran =
        rw (wait_func-append before (timeout_handler ∷ after) end, ran)
          (wait_func-idle after (returned resp (default_response R S), w) idle)

  -- Where the clock's function is the last that WaitFunc runs, but for those that do nothing, the
  -- call is answered with an error that is not nil, whatever the handler has returned before; the
  -- response that the handler may have returned goes with it, and what the handler has written stays.
  pub timed_out_call_fails :
      (L : StatusLaws S) (set : TimeoutSet R) (call : Call) (handler : UnaryHandler R A)
      (ctx : Context) (w w' : World R) (ev : Option R.Event) (before after : List Callback)
      (resp : Option A) (err : Option R.Error)
      → S.marshals (own_detail S 1 "Request timed out!") ≡ true
      → get_event R (enter R set.entry_name ctx w).0 (enter R set.entry_name ctx w).1.heap ≡ held ev
      → set.wait ev call.full_method ≡ before ++ timeout_handler ∷ after
      → All IsIdle after
      → wait_func R S set.passes_on
          (handler (enter R set.entry_name ctx w).0)
          before
          (returned none none, (enter R set.entry_name ctx w).1)
        ≡ (returned resp err, w')
      → (e : R.Error) × (timeout_interceptor R S set call handler ctx w
          ≡ (returned resp (some e), w'))
  unfolding timeout_interceptor wait_with_event default_response canceled
  timed_out_call_fails L set call handler ctx w w' ev before after resp err fits asserted waits idle
        ran =
      let (wrapped, entered) = enter R set.entry_name ctx w in
      let (e, made) = base_error_wrapper-err S L 1 "Request timed out!" (omega arith) fits in
      let ended =
        wait_func-timed_out set.passes_on (handler wrapped) before after
          (returned none none, entered) resp err w' idle ran in
      (e, rw (asserted, timeout_interceptor, wait_with_event, waits, ended) (rw made))

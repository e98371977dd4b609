-- ===== src/Middleware/Timeout.antt =====
-- The interceptors of middleware/timeout/server_interceptor.go. `WaitFunc` of rk-entry runs the five
-- functions that it is given, NextHandler beside a clock: which of them it has run when it returns,
-- in which order, and whether it passes a panic of NextHandler on, is a parameter. What NextHandler
-- does after that does not reach the answer any more.
pub mod Answers
use rk_grpc.Prelude.{String, Option, none, some, List, [], ◌∷◌}
use rk_grpc.Boot.ErrorWrapper.{StatusPackage, canceled}
use rk_grpc.Middleware.Access.{Runtime, Asserted, held, failed, get_event}
use rk_grpc.Middleware.Log.{Call}
use rk_grpc.Middleware.Handler.{
  World, Handled, returned, panicked, Interceptor, StreamHandler, stream_after, enter,
}

-- The functions of `beforeCtx.Input`.
pub data Callback : Type 0 where
  init_handler : Callback
  next_handler : Callback
  panic_handler : Callback
  finish_handler : Callback
  timeout_handler : Callback

-- `passes_on` is the value with which `WaitFunc` panics after NextHandler has panicked, if it does.
pub record TimeoutSet (R : Runtime) : Type 0 where
  pub entry_name : String
  pub wait : Option R.Event → String → List Callback
  pub passes_on : R.Recovered → Option R.Recovered

module _ (R : Runtime) (S : StatusPackage R.Error) where
  -- `rkgrpcerr.Canceled("Request timed out!").Err()`
  unfoldable pub default_response : Option R.Error
  default_response = S.err (canceled S "Request timed out!" [])

module _ (R : Runtime) (S : StatusPackage R.Error) {A : Type 0} where
  -- What follows a run of NextHandler, with the response and the error before it: `toCtx` has its
  -- results, or, if it has panicked and the panic is not passed on, those before.
  unfoldable pub after_next :
      (R.Recovered → Option R.Recovered)
      → (Handled R A × World R → Handled R A × World R)
      → Option A
      → Option R.Error
      → Handled R A × World R
      → Handled R A × World R
  after_next passes_on go_on resp err (returned resp' err', w) = go_on (returned resp' err', w)
  after_next passes_on go_on resp err (panicked recv, w) = elim (passes_on recv) [
    | some recv' ↦ (panicked recv', w)
    | none ↦ go_on (returned resp err, w)
  ]

  -- `WaitFunc`: the response and the error of `toCtx` go from function to function. The last clauses
  -- are of the functions that do nothing.
  unfoldable pub wait_func :
      (R.Recovered → Option R.Recovered)
      → (World R → Handled R A × World R)
      → List Callback
      → Handled R A × World R
      → Handled R A × World R
  unfolding default_response after_next
  wait_func passes_on next [] end = end
  wait_func passes_on next (c ∷ cs) (panicked recv, w) = (panicked recv, w)
  wait_func passes_on next (next_handler ∷ cs) (returned resp err, w) =
      after_next passes_on (wait_func passes_on next cs) resp err (next w)
  wait_func passes_on next (timeout_handler ∷ cs) (returned resp err, w) =
      wait_func passes_on next cs (returned resp (default_response R S), w)
  wait_func passes_on next (init_handler ∷ cs) (returned resp err, w) =
      wait_func passes_on next cs (returned resp err, w)
  wait_func passes_on next (panic_handler ∷ cs) (returned resp err, w) =
      wait_func passes_on next cs (returned resp err, w)
  wait_func passes_on next (finish_handler ∷ cs) (returned resp err, w) =
      wait_func passes_on next cs (returned resp err, w)

  -- The event is asserted before the option set is asked.
  unfoldable pub wait_with_event :
      TimeoutSet R
      → Call
      → (World R → Handled R A × World R)
      → World R
      → Asserted (Option R.Event)
      → Handled R A × World R
  unfolding wait_func
  wait_with_event set call next w (held event) =
      wait_func set.passes_on next (set.wait event call.full_method) (returned none none, w)
  wait_with_event set call next w failed = (panicked R.type_assertion, w)

  unfoldable pub timeout_interceptor : TimeoutSet R → Call → Interceptor R A
  unfolding enter wait_with_event
  timeout_interceptor set call handler ctx w =
      let (wrapped, w') = enter R set.entry_name ctx w in
      wait_with_event set call (handler wrapped) w' (get_event R wrapped w'.heap)

  -- The handler is given the stream as it came.
  unfoldable pub timeout_stream_interceptor :
      TimeoutSet R → Call → StreamHandler R A → StreamHandler R A
  unfolding enter wait_with_event stream_after
  timeout_stream_interceptor set call handler stream w =
      let (wrapped, w') = enter R set.entry_name stream.context w in
      wait_with_event set call (handler (stream_after stream wrapped)) w'
        (get_event R wrapped w'.heap)

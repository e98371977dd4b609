-- ===== src/Middleware/Chain/Guards.antt =====
-- The interceptors of middleware/ that may refuse a call, or end it before its handler does, keep the
-- payloads typed, if the handler behind them does.
use rk_grpc.Prelude.{String, ◌≡◌, refl, Option, none, some, List, [], ◌∷◌, Option-cases, inl, inr}
use rk_grpc.Boot.ErrorWrapper.{StatusPackage}
use rk_grpc.Middleware.Access.{Runtime, Asserted, held, failed}
use rk_grpc.Middleware.Access.Types.{KeyTypes}
use rk_grpc.Middleware.Log.{Call}
use rk_grpc.Middleware.Timeout.{
  Callback, next_handler, timeout_handler, TimeoutSet, default_response, after_next, wait_func,
  wait_with_event, timeout_interceptor, timeout_stream_interceptor,
}
use rk_grpc.Middleware.Guard.{
  HeaderNames, AuthSet, LimitSet, auth_input, auth_interceptor, ratelimit_interceptor,
  auth_stream_interceptor, ratelimit_stream_interceptor,
}
use rk_grpc.Middleware.Jwt.{
  JwtSet, create_req_by_copying_header, jwt_interceptor, jwt_stream_interceptor,
}
use rk_grpc.Middleware.Handler.{
  World, Handled, returned, panicked, UnaryHandler, StreamHandler, wrapped_stream, stream_after,
  enter,
}
use rk_grpc.Middleware.Chain.Keeps.{TypedWorld, enter-IsTyped, add_headers_to_client-IsTyped}
use rk_grpc.Middleware.Chain.Interceptors.{KeepsTypes, KeepsStreamTypes}

module _ {R : Runtime} (T : KeyTypes R) {A : Type 0} where
  -- A refusal that ends in a typed world, or a handler that does.
  refused_or-IsTyped :
      (refusal : Option String) (refuse : String → Handled R A × World R)
      (go_on : Handled R A × World R)
      → ((message : String) → TypedWorld T (refuse message).1)
      → TypedWorld T go_on.1
      → TypedWorld T
          (elim refusal as (λ o. Handled R A × World R) [
            | some message ↦ refuse message
            | none ↦ go_on
          ]).1
  refused_or-IsTyped none refuse go_on r g = g
  refused_or-IsTyped (some message) refuse go_on r g = r message

  pub auth-KeepsTypes :
      (S : StatusPackage R.Error) (H : HeaderNames) (set : AuthSet) (call : Call)
      (handler : UnaryHandler R A)
      → KeepsTypes T handler
      → KeepsTypes T (auth_interceptor R S H set call handler)
  unfolding auth_interceptor
  auth-KeepsTypes S H set call handler h ctx w t =
      let (wrapped, w') = enter R set.entry_name ctx w in
      let t' = enter-IsTyped T set.entry_name ctx w t in
      let (refusal, headers) = set.before (auth_input H call) in
      refused_or-IsTyped refusal _ (handler wrapped w')
        (λ message. add_headers_to_client-IsTyped T wrapped headers w' _ t' (λ w'' t''. t''))
        (h wrapped w' t')

  pub auth-KeepsStreamTypes :
      (S : StatusPackage R.Error) (H : HeaderNames) (set : AuthSet) (call : Call)
      (handler : StreamHandler R A)
      → KeepsStreamTypes T handler
      → KeepsStreamTypes T (auth_stream_interceptor R S H set call handler)
  unfolding auth_stream_interceptor
  auth-KeepsStreamTypes S H set call handler h stream w t =
      let (wrapped, w') = enter R set.entry_name stream.context w in
      let t' = enter-IsTyped T set.entry_name stream.context w t in
      let (refusal, headers) = set.before (auth_input H call) in
      refused_or-IsTyped refusal _ (handler (wrapped_stream wrapped) w')
        (λ message. add_headers_to_client-IsTyped T wrapped headers w' _ t' (λ w'' t''. t''))
        (h (wrapped_stream wrapped) w' t')

  pub ratelimit-KeepsTypes :
      (S : StatusPackage R.Error) (set : LimitSet) (call : Call) (handler : UnaryHandler R A)
      → KeepsTypes T handler
      → KeepsTypes T (ratelimit_interceptor R S set call handler)
  unfolding ratelimit_interceptor
  ratelimit-KeepsTypes S set call handler h ctx w t =
      let (wrapped, w') = enter R set.entry_name ctx w in
      let t' = enter-IsTyped T set.entry_name ctx w t in
      refused_or-IsTyped (set.before call.full_method) _ (handler wrapped w') (λ message. t')
        (h wrapped w' t')

  pub ratelimit-KeepsStreamTypes :
      (S : StatusPackage R.Error) (set : LimitSet) (call : Call) (handler : StreamHandler R A)
      → KeepsStreamTypes T handler
      → KeepsStreamTypes T (ratelimit_stream_interceptor R S set call handler)
  unfolding ratelimit_stream_interceptor
  ratelimit-KeepsStreamTypes S set call handler h stream w t =
      let (wrapped, w') = enter R set.entry_name stream.context w in
      let t' = enter-IsTyped T set.entry_name stream.context w t in
      refused_or-IsTyped (set.before call.full_method) _ (handler (wrapped_stream wrapped) w')
        (λ message. t') (h (wrapped_stream wrapped) w' t')

  module _ {Token : Type 0} (canonical : String → String) where
    pub jwt-KeepsTypes :
        (S : StatusPackage R.Error) (set : JwtSet Token) (call : Call)
        (handler : Option Token → UnaryHandler R A)
        → ((token : Option Token) → KeepsTypes T (handler token))
        → KeepsTypes T (jwt_interceptor canonical R S set call handler)
    unfolding jwt_interceptor
    jwt-KeepsTypes S set call handler h ctx w t =
        let (wrapped, w') = enter R set.entry_name ctx w in
        let t' = enter-IsTyped T set.entry_name ctx w t in
        let (refusal, token) = set.before (create_req_by_copying_header canonical call) in
        refused_or-IsTyped refusal _ (handler token wrapped w') (λ message. t')
          (h token wrapped w' t')

    pub jwt-KeepsStreamTypes :
        (S : StatusPackage R.Error) (set : JwtSet Token) (call : Call)
        (handler : Option Token → StreamHandler R A)
        → ((token : Option Token) → KeepsStreamTypes T (handler token))
        → KeepsStreamTypes T (jwt_stream_interceptor canonical R S set call handler)
    unfolding jwt_stream_interceptor
    jwt-KeepsStreamTypes S set call handler h stream w t =
        let (wrapped, w') = enter R set.entry_name stream.context w in
        let t' = enter-IsTyped T set.entry_name stream.context w t in
        let (refusal, token) = set.before (create_req_by_copying_header canonical call) in
        refused_or-IsTyped refusal _ (handler token (wrapped_stream wrapped) w') (λ message. t')
          (h token (wrapped_stream wrapped) w' t')

  -- What WaitFunc runs keeps the payloads typed, in whatever order.
  module _ (S : StatusPackage R.Error) (passes_on : R.Recovered → Option R.Recovered) where
    after_next-IsTyped :
        (go_on : Handled R A × World R → Handled R A × World R) (resp : Option A)
        (err : Option R.Error) (end : Handled R A × World R)
        → ((e : Handled R A × World R) → TypedWorld T e.1 → TypedWorld T (go_on e).1)
        → TypedWorld T end.1
        → TypedWorld T (after_next R S passes_on go_on resp err end).1
    unfolding after_next
    after_next-IsTyped go_on resp err (returned resp' err', w) g t = g (returned resp' err', w) t
    after_next-IsTyped go_on resp err (panicked recv, w) g t =
        elim (Option-cases (passes_on recv)) [
          | inl e ↦ rw (e, after_next) (g (returned resp err, w) t)
          | inr (recv', e) ↦ rw (e, after_next) t
        ]

    wait_func-IsTyped :
        (next : World R → Handled R A × World R)
        → ((w : World R) → TypedWorld T w → TypedWorld T (next w).1)
        → (cs : List Callback) (end : Handled R A × World R) → TypedWorld T end.1
        → TypedWorld T (wait_func R S passes_on next cs end).1
    unfolding wait_func
    wait_func-IsTyped next n [] end t = t
    wait_func-IsTyped next n (c ∷ cs) (panicked recv, w) t = t
    wait_func-IsTyped next n (next_handler ∷ cs) (returned resp err, w) t =
        after_next-IsTyped (wait_func R S passes_on next cs) resp err (next w)
          (wait_func-IsTyped next n cs) (n w t)
    wait_func-IsTyped next n (timeout_handler ∷ cs) (returned resp err, w) t =
        wait_func-IsTyped next n cs (returned resp (default_response R S), w) t
    wait_func-IsTyped next n (c ∷ cs) (returned resp err, w) t =
        wait_func-IsTyped next n cs (returned resp err, w) t

    pub wait_with_event-IsTyped :
        (set : TimeoutSet R) (call : Call) (next : World R → Handled R A × World R) (w : World R)
        (e : Asserted (Option R.Event))
        → set.passes_on ≡ passes_on
        → ((w : World R) → TypedWorld T w → TypedWorld T (next w).1)
        → TypedWorld T w
        → TypedWorld T (wait_with_event R S set call next w e).1
    unfolding wait_with_event
    wait_with_event-IsTyped set call next w (held e) same n t =
        rw same (wait_func-IsTyped next n (set.wait e call.full_method) (returned none none, w) t)
    wait_with_event-IsTyped set call next w failed same n t = t

  pub timeout-KeepsTypes :
      (S : StatusPackage R.Error) (set : TimeoutSet R) (call : Call) (handler : UnaryHandler R A)
      → KeepsTypes T handler
      → KeepsTypes T (timeout_interceptor R S set call handler)
  unfolding timeout_interceptor
  timeout-KeepsTypes S set call handler h ctx w t =
      let (wrapped, w') = enter R set.entry_name ctx w in
      wait_with_event-IsTyped S set.passes_on set call (handler wrapped) w' _ refl (h wrapped)
        (enter-IsTyped T set.entry_name ctx w t)

  pub timeout-KeepsStreamTypes :
      (S : StatusPackage R.Error) (set : TimeoutSet R) (call : Call) (handler : StreamHandler R A)
      → KeepsStreamTypes T handler
      → KeepsStreamTypes T (timeout_stream_interceptor R S set call handler)
  unfolding timeout_stream_interceptor
  timeout-KeepsStreamTypes S set call handler h stream w t =
      let (wrapped, w') = enter R set.entry_name stream.context w in
      let stream' = stream_after stream wrapped in
      wait_with_event-IsTyped S set.passes_on set call (handler stream') w' _ refl (h stream')
        (enter-IsTyped T set.entry_name stream.context w t)

-- ===== src/Middleware/Chain/Refused.antt =====
-- Of the chains of interceptors that boot/grpc_entry.go builds: what a call that middleware/auth or
-- middleware/ratelimit refuses does not reach.
use rk_grpc.Prelude.{
  String, ◌≡◌, refl, ap, subst, sym, fun_ext, ◌⊎◌, inl, inr, Bool, true, false, some, List, [], ◌∷◌,
  ◌++◌, map,
}
use rk_grpc.Middleware.Access.{Runtime}
use rk_grpc.Boot.ErrorWrapper.{StatusPackage}
use rk_grpc.Middleware.Log.{Call}
use rk_grpc.Middleware.Handler.{UnaryHandler, StreamHandler}
use rk_grpc.Middleware.Guard.{
  HeaderNames, AuthSet, LimitSet, auth_input, auth_interceptor, auth_stream_interceptor,
  ratelimit_interceptor, ratelimit_stream_interceptor,
}
use rk_grpc.Middleware.Chain.{
  Kind, auth, timeout, rate_limit, MiddlewareConfig, add_if, unary_interceptors, chain, Sets,
  interceptor_of, stream_interceptor_of, registered_handler, registered_stream_handler,
}
use rk_grpc.Middleware.Chain.Recovery.{add_if-behind}

abbrev Has : Kind → List Kind → Type 0
Has p ks = (before : List Kind) × (after : List Kind) × (ks ≡ before ++ p ∷ after)

add_if-Has :
    (enabled : Bool) (p : Kind) (ks : List Kind) → enabled ≡ true → Has p (add_if enabled p ks)
unfolding add_if
add_if-Has true p ks on = (ks, [], refl)
add_if-Has false p ks on = absurd (cc on)

add_if-keeps_Has :
    (enabled : Bool) (k p : Kind) (ks : List Kind) → Has p ks → Has p (add_if enabled k ks)
add_if-keeps_Has enabled k p ks (before, after, same) =
    (before, add_if enabled k after, rw same (add_if-behind enabled k p before after))

unary_interceptors-auth :
    (m : MiddlewareConfig) → m.auth_enabled ≡ true → Has auth (unary_interceptors m)
unfolding unary_interceptors
unary_interceptors-auth m on =
    add_if-keeps_Has m.rate_limit_enabled rate_limit auth _
      (add_if-keeps_Has m.timeout_enabled timeout auth _ (add_if-Has m.auth_enabled auth _ on))

unary_interceptors-rate_limit :
    (m : MiddlewareConfig) → m.rate_limit_enabled ≡ true → Has rate_limit (unary_interceptors m)
unfolding unary_interceptors
unary_interceptors-rate_limit m on = add_if-Has m.rate_limit_enabled rate_limit _ on

-- A chain one of whose interceptors does the same whatever is behind it does the same whatever
-- handler it is around.
chain_ignores :
    {H : Type 0} (f : Kind → H → H) (p : Kind)
    → ((h g : H) → f p h ≡ f p g)
    → (before after : List Kind) (h g : H)
    → chain (map f (before ++ p ∷ after)) h ≡ chain (map f (before ++ p ∷ after)) g
unfolding chain
chain_ignores f p stops [] after h g = stops (chain (map f after) h) (chain (map f after) g)
chain_ignores f p stops (k ∷ before) after h g = ap (f k) (chain_ignores f p stops before after h g)

ignores_through :
    {H : Type 0} (f : Kind → H → H) (p : Kind) (ks : List Kind)
    → Has p ks
    → ((h g : H) → f p h ≡ f p g)
    → (h g : H) → chain (map f ks) h ≡ chain (map f ks) g
ignores_through f p ks (before, after, same) stops h g =
    subst (λ is. chain (map f is) h ≡ chain (map f is) g) (sym same)
      (chain_ignores f p stops before after h g)

module _ (R : Runtime) (S : StatusPackage R.Error) {A : Type 0} (call : Call)
    (message : String) where
  auth_stops :
      (H : HeaderNames) (set : AuthSet)
      → (set.before (auth_input H call)).0 ≡ some message
      → (h g : UnaryHandler R A)
      → auth_interceptor R S H set call h ≡ auth_interceptor R S H set call g
  unfolding auth_interceptor
  auth_stops H set refused h g = fun_ext (λ ctx. fun_ext (λ w. rw (refused, auth_interceptor) refl))

  auth_stream_stops :
      (H : HeaderNames) (set : AuthSet)
      → (set.before (auth_input H call)).0 ≡ some message
      → (h g : StreamHandler R A)
      → auth_stream_interceptor R S H set call h ≡ auth_stream_interceptor R S H set call g
  unfolding auth_stream_interceptor
  auth_stream_stops H set refused h g =
      fun_ext (λ stream. fun_ext (λ w. rw (refused, auth_stream_interceptor) refl))

  ratelimit_stops :
      (set : LimitSet)
      → set.before call.full_method ≡ some message
      → (h g : UnaryHandler R A)
      → ratelimit_interceptor R S set call h ≡ ratelimit_interceptor R S set call g
  unfolding ratelimit_interceptor
  ratelimit_stops set refused h g =
      fun_ext (λ ctx. fun_ext (λ w. rw (refused, ratelimit_interceptor) refl))

  ratelimit_stream_stops :
      (set : LimitSet)
      → set.before call.full_method ≡ some message
      → (h g : StreamHandler R A)
      → ratelimit_stream_interceptor R S set call h ≡ ratelimit_stream_interceptor R S set call g
  unfolding ratelimit_stream_interceptor
  ratelimit_stream_stops set refused h g =
      fun_ext (λ stream. fun_ext (λ w. rw (refused, ratelimit_stream_interceptor) refl))

module _ (R : Runtime) (s : Sets R) (call : Call) (m : MiddlewareConfig) where
  -- The authorisation is enabled and refuses the call, or the rate limiter does.
  abbrev pub IsRefused : Type 0
  IsRefused =
      ((m.auth_enabled ≡ true)
        × (message : String) × ((s.auth_set.before (auth_input s.header_names call)).0
            ≡ some message))
      ⊎ ((m.rate_limit_enabled ≡ true)
          × (message : String) × (s.limit_set.before call.full_method ≡ some message))

module _ (R : Runtime) {A : Type 0} (s : Sets R) (call : Call) (m : MiddlewareConfig) where
  -- Where the configuration enables the authorisation or the rate limiter, and it refuses a call,
  -- what becomes of the call, unary or stream, through all the interceptors that are configured,
  -- its answer, the headers and all that is written, does not depend on the service's handler.
  pub refused_call_reaches_no_handler :
      IsRefused R s call m
      → (handler other : UnaryHandler R A) (stream_handler other_stream : StreamHandler R A)
      → (registered_handler R s call m handler ≡ registered_handler R s call m other)
        × (registered_stream_handler R s call m stream_handler
            ≡ registered_stream_handler R s call m other_stream)
  unfolding registered_handler registered_stream_handler interceptor_of stream_interceptor_of
  refused_call_reaches_no_handler (inl (on, message, refused)) h g sh sg =
      let has = unary_interceptors-auth m on in
      (
        ignores_through (interceptor_of R s call) auth (unary_interceptors m) has
            (auth_stops R s.statuses call message s.header_names s.auth_set refused) h g,
        ignores_through (stream_interceptor_of R s call) auth (unary_interceptors m) has
            (auth_stream_stops R s.statuses call message s.header_names s.auth_set refused) sh sg,
      )
  refused_call_reaches_no_handler (inr (on, message, refused)) h g sh sg =
      let has = unary_interceptors-rate_limit m on in
      (
        ignores_through (interceptor_of R s call) rate_limit (unary_interceptors m) has
            (ratelimit_stops R s.statuses call message s.limit_set refused) h g,
        ignores_through (stream_interceptor_of R s call) rate_limit (unary_interceptors m) has
            (ratelimit_stream_stops R s.statuses call message s.limit_set refused) sh sg,
      )

-- ===== src/Middleware/Guard.antt =====
-- The interceptors that may refuse a call: middleware/auth/server_interceptor.go and
-- middleware/ratelimit/server_interceptor.go; and the one that adds headers to its answer,
-- middleware/meta/server_interceptor.go. What the option sets of rk-entry decide is a parameter.
use rk_grpc.Prelude.{String, Option, none, some, List, []}
use rk_grpc.Boot.ErrorWrapper.{StatusPackage, unauthenticated, resource_exhausted}
use rk_grpc.Middleware.Payload.{Context}
use rk_grpc.Middleware.Address.{values_of, or_nil}
use rk_grpc.Middleware.Access.{Runtime, Asserted, held, failed, get_event}
use rk_grpc.Middleware.Info.{first_or_empty}
use rk_grpc.Middleware.Log.{Call}
use rk_grpc.Middleware.Handler.{
  World, Handled, returned, panicked, UnaryHandler, Interceptor, StreamHandler, wrapped_stream,
  enter, add_headers_to_client,
}

-- The input of the authorisation, and its output: the message of `ErrResp`, if it is not nil, and
-- the headers to return.
pub record AuthInput : Type 0 where
  pub url_path : String
  pub basic_auth_header : String
  pub api_key_header : String

pub record AuthSet : Type 0 where
  pub entry_name : String
  pub before : AuthInput → Option String × List (String × String)

-- The rate limiter answers from a state of its own, which is the list of the calls before.
pub record LimitSet : Type 0 where
  pub entry_name : String
  pub before : String → Option String

pub record MetaSet (R : Runtime) : Type 0 where
  pub entry_name : String
  pub before : Option R.Event → String → List (String × String)

-- The names of the headers, and strings.ToLower, which metadata.MD.Get applies to a name.
pub record HeaderNames : Type 0 where
  pub to_lower : String → String
  pub header_authorization : String
  pub header_api_key : String

unfoldable pub get_first_header : HeaderNames → List (String × List String) → String → String
unfolding first_or_empty
get_first_header H md key = first_or_empty (values_of (H.to_lower key) md)

unfoldable pub auth_input : HeaderNames → Call → AuthInput
auth_input H call =
    let md = or_nil call.incoming.metadata in
    record {
      url_path = call.full_method;
      basic_auth_header = get_first_header H md H.header_authorization;
      api_key_header = get_first_header H md H.header_api_key;
    }

module _ (R : Runtime) (S : StatusPackage R.Error) {A : Type 0} where
  unfoldable pub auth_interceptor : HeaderNames → AuthSet → Call → Interceptor R A
  unfolding enter
  auth_interceptor H set call handler ctx w =
      let (wrapped, w') = enter R set.entry_name ctx w in
      let (refusal, headers) = set.before (auth_input H call) in
      elim refusal [
        | some message ↦
            add_headers_to_client R wrapped headers w'
              (λ w''. (returned none (S.err (unauthenticated S message [])), w''))
        | none ↦ handler wrapped w'
      ]

  unfoldable pub ratelimit_interceptor : LimitSet → Call → Interceptor R A
  unfolding enter
  ratelimit_interceptor set call handler ctx w =
      let (wrapped, w') = enter R set.entry_name ctx w in
      elim (set.before call.full_method) [
        | some message ↦ (returned none (S.err (resource_exhausted S message [])), w')
        | none ↦ handler wrapped w'
      ]

  unfoldable pub auth_stream_interceptor :
      HeaderNames → AuthSet → Call → StreamHandler R A → StreamHandler R A
  unfolding enter
  auth_stream_interceptor H set call handler stream w =
      let (wrapped, w') = enter R set.entry_name stream.context w in
      let (refusal, headers) = set.before (auth_input H call) in
      elim refusal [
        | some message ↦
            add_headers_to_client R wrapped headers w'
              (λ w''. (returned none (S.err (unauthenticated S message [])), w''))
        | none ↦ handler (wrapped_stream wrapped) w'
      ]

  unfoldable pub ratelimit_stream_interceptor :
      LimitSet → Call → StreamHandler R A → StreamHandler R A
  unfolding enter
  ratelimit_stream_interceptor set call handler stream w =
      let (wrapped, w') = enter R set.entry_name stream.context w in
      elim (set.before call.full_method) [
        | some message ↦ (returned none (S.err (resource_exhausted S message [])), w')
        | none ↦ handler (wrapped_stream wrapped) w'
      ]

module _ (R : Runtime) {A : Type 0} where
  -- The event is asserted before the headers are asked for.
  unfoldable pub meta_with_event :
      MetaSet R
      → Call
      → UnaryHandler R A
      → Context
      → World R
      → Asserted (Option R.Event)
      → Handled R A × World R
  meta_with_event set call handler wrapped w (held event) =
      add_headers_to_client R wrapped (set.before event call.full_method) w (handler wrapped)
  meta_with_event set call handler wrapped w failed = (panicked R.type_assertion, w)

  unfoldable pub meta_interceptor : MetaSet R → Call → Interceptor R A
  unfolding enter meta_with_event
  meta_interceptor set call handler ctx w =
      let (wrapped, w') = enter R set.entry_name ctx w in
      meta_with_event set call handler wrapped w' (get_event R wrapped w'.heap)

  unfoldable pub meta_stream_interceptor : MetaSet R → Call → StreamHandler R A → StreamHandler R A
  unfolding enter meta_with_event
  meta_stream_interceptor set call handler stream w =
      let (wrapped, w') = enter R set.entry_name stream.context w in
      meta_with_event set call (λ ctx. handler (wrapped_stream ctx)) wrapped w'
        (get_event R wrapped w'.heap)

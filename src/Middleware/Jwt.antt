-- ===== src/Middleware/Jwt.antt =====
-- The interceptors of middleware/jwt/server_interceptor.go. What the option set of rk-entry decides
-- on the copied request is a parameter. The token, which the code puts into the context, is an
-- argument of the handler: GetJwtToken of middleware/context/context.go gives it.
use rk_grpc.Prelude.{String, Option, none, some, List, [], ◌∷◌}
use rk_grpc.Boot.ErrorWrapper.{StatusPackage, unauthenticated}
use rk_grpc.Boot.HttpHeader.{Header, set_value}
use rk_grpc.Middleware.Address.{or_nil}
use rk_grpc.Middleware.Access.{Runtime}
use rk_grpc.Middleware.Log.{Call}
use rk_grpc.Middleware.Handler.{returned, UnaryHandler, StreamHandler, wrapped_stream, enter}

-- The request of `createReqByCopyingHeader`: its path and its header.
pub record CopiedRequest : Type 0 where
  pub path : String
  pub header : Header

-- The message of `ErrResp`, if it is not nil, and the token, which may be nil.
pub record JwtSet (Token : Type 0) : Type 0 where
  pub entry_name : String
  pub before : CopiedRequest → Option String × Option Token

module _ (canonical : String → String) where
  -- The loop over the metadata: the first value of each name.
  unfoldable pub copy_header : List (String × List String) → Header → Header
  unfolding set_value
  copy_header [] header = header
  copy_header ((k, []) ∷ md) header = copy_header md header
  copy_header ((k, v ∷ vs) ∷ md) header = copy_header md (set_value canonical k v header)

  unfoldable pub create_req_by_copying_header : Call → CopiedRequest
  unfolding copy_header
  create_req_by_copying_header call = record {
    path = call.full_method;
    header = copy_header (or_nil call.incoming.metadata) [];
  }

  module _ (R : Runtime) (S : StatusPackage R.Error) {A Token : Type 0} where
    unfoldable pub jwt_interceptor :
        JwtSet Token → Call → (Option Token → UnaryHandler R A) → UnaryHandler R A
    unfolding enter create_req_by_copying_header
    jwt_interceptor set call handler ctx w =
        let (wrapped, w') = enter R set.entry_name ctx w in
        let (refusal, token) = set.before (create_req_by_copying_header call) in
        elim refusal [
          | some message ↦ (returned none (S.err (unauthenticated S message [])), w')
          | none ↦ handler token wrapped w'
        ]

    unfoldable pub jwt_stream_interceptor :
        JwtSet Token → Call → (Option Token → StreamHandler R A) → StreamHandler R A
    unfolding enter create_req_by_copying_header
    jwt_stream_interceptor set call handler stream w =
        let (wrapped, w') = enter R set.entry_name stream.context w in
        let (refusal, token) = set.before (create_req_by_copying_header call) in
        elim refusal [
          | some message ↦ (returned none (S.err (unauthenticated S message [])), w')
          | none ↦ handler token (wrapped_stream wrapped) w'
        ]

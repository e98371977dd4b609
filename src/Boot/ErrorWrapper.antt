-- ===== src/Boot/ErrorWrapper.antt =====
-- The error wrappers of boot/error/grpc_error_wrap.go. The status package of grpc-go is a
-- parameter.
pub mod Details
use rk_grpc.Boot.Integers.{ℤ, to_int32}
use rk_grpc.Prelude.{
  ℕ, String, ◌≡◌, ◌≢◌, Bool, true, false, Option, none, some, List, [], ◌∷◌, ◌++◌,
}

-- A codes.Code is a uint32, and the code of a detail an int32.
pub record ErrorDetail : Type 0 where
  pub code : ℤ
  pub status : String
  pub message : String

-- A *status.Status that is not nil.
pub record GrpcStatus : Type 0 where
  pub code : ℕ
  pub message : String
  pub details : List ErrorDetail

-- What the wrappers use of grpc-go: `code.String()`, `st.WithDetails(d)` without its error,
-- `status.FromError(err)` with code and message, and `st.Err()`. Nil is `none`. `marshals` is
-- whether protobuf can serialise the detail.
pub record StatusPackage (E : Type 0) : Type 0 where
  pub code_text : ℕ → String
  pub with_details : Option GrpcStatus → ErrorDetail → Option GrpcStatus
  pub from_error : Option E → ℕ × String
  pub err : Option GrpcStatus → Option E
  pub marshals : ErrorDetail → Bool

-- Documented: WithDetails appends; on an error, which a status with the code OK, nil included, and
-- a detail that cannot be serialised give, it returns nil. Err is nil for nil, and not for a
-- status with another code than OK.
pub record StatusLaws {E : Type 0} (S : StatusPackage E) : Type 0 where
  pub appends :
      (st : GrpcStatus) (d : ErrorDetail)
      → st.code ≢ 0
      → S.marshals d ≡ true
      → S.with_details (some st) d ≡ some (record st { details = st.details ++ d ∷ [] })
  pub refuses_ok :
      (st : GrpcStatus) (d : ErrorDetail) → st.code ≡ 0 → S.with_details (some st) d ≡ none
  pub refuses_nil : (d : ErrorDetail) → S.with_details none d ≡ none
  pub refuses_unmarshalled :
      (st : GrpcStatus) (d : ErrorDetail) → S.marshals d ≡ false → S.with_details (some st) d ≡ none
  pub err_nil : S.err none ≡ none
  pub err_code : (st : GrpcStatus) → st.code ≢ 0 → S.err (some st) ≢ none

module _ {E : Type 0} (S : StatusPackage E) where
  unfoldable pub error_detail : Option E → ErrorDetail
  unfolding to_int32
  error_detail e =
      let (code, message) = S.from_error e in
      record { code = to_int32 code; status = S.code_text code; message = message }

  -- The loop over `errors`.
  unfoldable pub add_details : List (Option E) → Option GrpcStatus → Option GrpcStatus
  unfolding error_detail
  add_details [] st = st
  add_details (e ∷ es) st = add_details es (S.with_details st (error_detail e))

  unfoldable pub own_detail : ℕ → String → ErrorDetail
  unfolding to_int32
  own_detail code msg = record { code = to_int32 code; status = S.code_text code; message = msg }

  unfoldable pub base_error_wrapper : ℕ → String → List (Option E) → Option GrpcStatus
  unfolding add_details own_detail
  base_error_wrapper code msg errors =
      let st : GrpcStatus = record { code = code; message = msg; details = [] } in
      add_details errors (S.with_details (some st) (own_detail code msg))

  -- The wrappers that the interceptors use.
  unfoldable pub canceled : String → List (Option E) → Option GrpcStatus
  canceled = base_error_wrapper 1

  unfoldable pub resource_exhausted : String → List (Option E) → Option GrpcStatus
  resource_exhausted = base_error_wrapper 8

  unfoldable pub unauthenticated : String → List (Option E) → Option GrpcStatus
  unauthenticated = base_error_wrapper 16

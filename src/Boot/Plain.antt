-- ===== src/Boot/Plain.antt =====
-- A status package that meets what boot/error/grpc_error_wrap.go relies on: an error is a status,
-- and only the message "?" cannot be serialised.
use rk_grpc.Prelude.{
  ℕ, String, ◌≡◌, refl, ◌≢◌, Bool, true, false, not, Option, none, some, [], ◌∷◌, ◌++◌, ◌==◌,
  str_eq, if◌then◌else◌, arith,
}
use rk_grpc.Boot.ErrorWrapper.{ErrorDetail, GrpcStatus, StatusPackage, StatusLaws}

abbrev plain_marshals : ErrorDetail → Bool
plain_marshals d = not (str_eq d.message "?")

abbrev plain_with_details : Option GrpcStatus → ErrorDetail → Option GrpcStatus
plain_with_details none d = none
plain_with_details (some st) d =
    if st.code == 0
    then none
    else if plain_marshals d
    then some (record st { details = st.details ++ d ∷ [] })
    else none

abbrev plain_err : Option GrpcStatus → Option GrpcStatus
plain_err none = none
plain_err (some st) = if st.code == 0 then none else some st

abbrev plain_from_error : Option GrpcStatus → ℕ × String
plain_from_error none = (0, "")
plain_from_error (some st) = (st.code, st.message)

abbrev pub plain_statuses : StatusPackage GrpcStatus
plain_statuses = record {
  code_text = λ code. if code == 0 then "OK" else "Code";
  with_details = plain_with_details;
  from_error = plain_from_error;
  err = plain_err;
  marshals = plain_marshals;
}

plain_appends :
    (st : GrpcStatus) (d : ErrorDetail)
    → st.code ≢ 0
    → plain_marshals d ≡ true
    → plain_with_details (some st) d ≡ some (record st { details = st.details ++ d ∷ [] })
plain_appends st d ok fits = ground arith

plain_refuses_ok :
    (st : GrpcStatus) (d : ErrorDetail) → st.code ≡ 0 → plain_with_details (some st) d ≡ none
plain_refuses_ok st d ok = ground arith

plain_refuses_unmarshalled :
    (st : GrpcStatus) (d : ErrorDetail)
    → plain_marshals d ≡ false
    → plain_with_details (some st) d ≡ none
plain_refuses_unmarshalled st d fails = ground arith

plain_err_code : (st : GrpcStatus) → st.code ≢ 0 → plain_err (some st) ≢ none
plain_err_code st ok = ground arith

pub plain_laws : StatusLaws plain_statuses
plain_laws = record {
  appends = plain_appends;
  refuses_ok = plain_refuses_ok;
  refuses_nil = λ d. refl;
  refuses_unmarshalled = plain_refuses_unmarshalled;
  err_nil = refl;
  err_code = plain_err_code;
}

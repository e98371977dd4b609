-- ===== src/Boot/ErrorWrapper/Details.antt =====
-- Of boot/error/grpc_error_wrap.go: the details that a wrapped error carries, and when it is lost.
use rk_grpc.Prelude.{
  ℕ, String, ◌≡◌, refl, ap, sym, ◌≢◌, Bool, true, ◌&&◌, Option, none, some, List, [], ◌∷◌, ◌++◌,
  map, append-nil, append_assoc, if◌then◌else◌, ◌==◌, arith, Bool-cases, Option-cases, inl, inr,
}
use rk_grpc.Boot.ErrorWrapper.{
  ErrorDetail, GrpcStatus, StatusPackage, StatusLaws, error_detail, add_details, own_detail,
  base_error_wrapper,
}

module _ {E : Type 0} (S : StatusPackage E) where
  abbrev pub all_marshal : List ErrorDetail → Bool
  all_marshal [] = true
  all_marshal (d ∷ ds) = S.marshals d && all_marshal ds

module _ {E : Type 0} (S : StatusPackage E) (L : StatusLaws S) where
  add_details_nil : (errors : List (Option E)) → add_details S errors none ≡ none
  unfolding add_details
  add_details_nil [] = refl
  add_details_nil (e ∷ es) = rw (L.refuses_nil (error_detail S e)) (add_details_nil es)

  add_details_lem :
      (errors : List (Option E)) (st : GrpcStatus)
      → st.code ≢ 0
      → add_details S errors (some st) ≡ (
          if all_marshal S (map (error_detail S) errors)
          then some (record st { details = st.details ++ map (error_detail S) errors })
          else none)
  unfolding add_details
  add_details_lem [] st ok =
      ap (λ (ds : List ErrorDetail). some (record st { details = ds }))
        (sym (append-nil st.details))
  add_details_lem (e ∷ es) st ok = elim (Bool-cases (S.marshals (error_detail S e))) [
    | inl fits ↦
        let st' : GrpcStatus = record st { details = st.details ++ error_detail S e ∷ [] } in
        let ih = add_details_lem es st' ok in
        let joined = append_assoc st.details (error_detail S e ∷ []) (map (error_detail S) es) in
        rw (L.appends st (error_detail S e) ok fits) (rw fits (rw joined at ih))
    | inr fails ↦
        rw (L.refuses_unmarshalled st (error_detail S e) fails) (rw fails (add_details_nil es))
  ]

  -- A wrapper gives the status with its code, its message and a detail for itself and for each
  -- wrapped error in their order, where the code is not OK and protobuf serialises every detail;
  -- otherwise it gives nil, whose error is nil.
  pub base_error_wrapper-details :
      (code : ℕ) (msg : String) (errors : List (Option E))
      → let details = own_detail S code msg ∷ map (error_detail S) errors in
        base_error_wrapper S code msg errors ≡ (
          if code == 0
          then none
          else if all_marshal S details
          then some (record { code = code; message = msg; details = details })
          else none)
  unfolding base_error_wrapper
  base_error_wrapper-details code msg errors =
      let st : GrpcStatus = record { code = code; message = msg; details = [] } in
      let own = own_detail S code msg in
      let nil = add_details_nil errors in
      elim (Bool-cases (code == 0)) [
        | inl zero ↦ rw (L.refuses_ok st own (ground arith)) (rw zero nil)
        | inr other ↦ elim (Bool-cases (S.marshals own)) [
          | inl fits ↦
              let nonzero : code ≢ 0 = ground arith in
              rw (L.appends st own nonzero fits) (
                rw other
                  (rw fits (add_details_lem errors (record st { details = own ∷ [] }) nonzero)))
          | inr fails ↦ rw (L.refuses_unmarshalled st own fails) (rw other (rw fails nil))
        ]
      ]

  -- Without wrapped errors, what fits into a message gives an error that is not nil.
  pub base_error_wrapper-err :
      (code : ℕ) (msg : String)
      → code ≢ 0
      → S.marshals (own_detail S code msg) ≡ true
      → (e : E) × (S.err (base_error_wrapper S code msg []) ≡ some e)
  base_error_wrapper-err code msg nonzero fits =
      let st : GrpcStatus = record {
        code = code;
        message = msg;
        details = own_detail S code msg ∷ [];
      } in
      let details = base_error_wrapper-details code msg [] in
      let made : base_error_wrapper S code msg [] ≡ some st = ground arith in
      elim (Option-cases (S.err (some st))) [
        | inl nil ↦ absurd (L.err_code st nonzero nil)
        | inr (e, same) ↦ (e, rw made same)
      ]

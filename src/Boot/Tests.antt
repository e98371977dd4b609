-- ===== src/Boot/Tests.antt =====
-- The theorems on the error wrappers at concrete inputs.
use rk_grpc.Prelude.{◌≡◌, refl, some, none, [], ◌∷◌, map, ◌==◌, if◌then◌else◌}
use rk_grpc.Boot.Integers.{pos, negsuc, to_int32}
use rk_grpc.Boot.ErrorWrapper.{
  GrpcStatus, error_detail, own_detail, add_details, base_error_wrapper, unauthenticated,
}
use rk_grpc.Boot.ErrorWrapper.Details.{all_marshal, base_error_wrapper-details}
use rk_grpc.Boot.Plain.{plain_statuses, plain_laws}

abbrev wrapped_error : GrpcStatus
wrapped_error = record { code = 5; message = "no such user"; details = [] }

wrapped_has_details :
    unauthenticated plain_statuses "no" (some wrapped_error ∷ [])
    ≡ some (record {
      code = 16;
      message = "no";
      details =
          record { code = pos 16; status = "Code"; message = "no" }
          ∷ record { code = pos 5; status = "Code"; message = "no such user" }
          ∷ [];
    })
unfolding unauthenticated base_error_wrapper add_details own_detail error_detail to_int32
wrapped_has_details = refl

-- A code above the int32 numbers wraps around.
to_int32_test : to_int32 4294967295 ≡ negsuc 0
unfolding to_int32
to_int32_test = refl

base_error_wrapper-details_example :
    let details =
      own_detail plain_statuses 16 "no"
      ∷ map (error_detail plain_statuses) (some wrapped_error ∷ []) in
    base_error_wrapper plain_statuses 16 "no" (some wrapped_error ∷ []) ≡ (
      if 16 == 0
      then none
      else if all_marshal plain_statuses details
      then some (record { code = 16; message = "no"; details = details })
      else none)
base_error_wrapper-details_example =
    base_error_wrapper-details plain_statuses plain_laws 16 "no" (some wrapped_error ∷ [])

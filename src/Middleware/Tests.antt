-- ===== src/Middleware/Tests.antt =====
-- The theorems on what the interceptors share at concrete inputs.
use rk_grpc.Prelude.{String, ◌≡◌, refl, some, List, [], ◌∷◌, str_eq, if◌then◌else◌, ◌==◌, arith}
use rk_grpc.Middleware.Slices.{has_key, key_set, append_new, merge_and_deduplicate_slice}
use rk_grpc.Middleware.Slices.Counts.{count, count-merge_and_deduplicate_slice}
use rk_grpc.Middleware.Payload.{Context, Payload, add_to_server_context_payload, read_payload}
use rk_grpc.Middleware.Payload.Laws.{read_payload-add_to_server_context_payload}

abbrev src_names : List String
src_names = "a" ∷ "b" ∷ "a" ∷ []

abbrev target_names : List String
target_names = "b" ∷ "c" ∷ "c" ∷ []

merged_names : merge_and_deduplicate_slice src_names target_names ≡ "a" ∷ "b" ∷ "a" ∷ "c" ∷ "c" ∷ []
unfolding merge_and_deduplicate_slice key_set has_key append_new
merged_names = refl

count-merge_and_deduplicate_slice_example :
    count "c" (merge_and_deduplicate_slice src_names target_names)
    ≡ (if has_key "c" src_names then count "c" src_names else count "c" target_names)
count-merge_and_deduplicate_slice_example =
    count-merge_and_deduplicate_slice "c" src_names target_names

abbrev heap : List (Payload String String)
heap = (("event", "e") ∷ []) ∷ [] ∷ []

abbrev wrapped : Context
wrapped = record { payload = some 1 }

read_payload-add_to_server_context_payload_example :
    read_payload str_eq
      (some wrapped)
      "k"
      (add_to_server_context_payload (some wrapped) "k" (some "v") heap)
    ≡ (if 1 == 1
        then (if str_eq "k" "k" then some "v" else read_payload str_eq (some wrapped) "k" heap)
        else read_payload str_eq (some wrapped) "k" heap)
read_payload-add_to_server_context_payload_example =
    read_payload-add_to_server_context_payload str_eq 1 1 "k" "k" "v" heap (omega arith)

-- A splitter that knows one address.
abbrev split : String → String × String
split address = if str_eq address "[::1]:7" then ("::1", "7") else ("", "")

-- ===== src/Middleware/Slices.antt =====
-- MergeAndDeduplicateSlice of middleware/common.go. The map of the names of `src` is the list of
-- its keys.
pub mod Counts
use rk_grpc.Prelude.{String, Bool, true, false, ◌||◌, List, [], ◌∷◌, ◌++◌, str_eq, if◌then◌else◌}

-- `m[src[i]] = true`, for each name.
unfoldable pub key_set : List String → List String → List String
key_set [] m = m
key_set (s ∷ src) m = key_set src (s ∷ m)

-- `_, ok := m[key]`
unfoldable pub has_key : String → List String → Bool
has_key key [] = false
has_key key (k ∷ m) = str_eq k key || has_key key m

-- The loop over `target`.
unfoldable pub append_new : List String → List String → List String → List String
append_new m [] src = src
append_new m (t ∷ target) src = append_new m target (if has_key t m then src else src ++ t ∷ [])

unfoldable pub merge_and_deduplicate_slice : List String → List String → List String
merge_and_deduplicate_slice src target = append_new (key_set src []) target src

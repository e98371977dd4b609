-- ===== src/Middleware/Slices/Counts.antt =====
-- How often MergeAndDeduplicateSlice of middleware/common.go keeps a name.
use rk_grpc.Prelude.{
  same_of_str_eq, ℕ, suc, ◌+◌, String, ◌≡◌, refl, false, ◌||◌, List, [], ◌∷◌, ◌++◌, str_eq,
  if◌then◌else◌, arith, Bool-cases, inl, inr, ap,
}
use rk_grpc.Middleware.Slices.{key_set, has_key, append_new, merge_and_deduplicate_slice}

-- How often a name is in a list.
abbrev pub count : String → List String → ℕ
count x [] = 0
count x (s ∷ ss) = let rest = count x ss in if str_eq s x then suc rest else rest

count_append : (x : String) (xs ys : List String) → count x (xs ++ ys) ≡ count x xs + count x ys
count_append x [] ys = ground arith
count_append x (s ∷ xs) ys = let ih = count_append x xs ys in ground arith

has_key-key_set :
    (x : String) (src m : List String) → has_key x (key_set src m) ≡ has_key x src || has_key x m
unfolding has_key key_set
has_key-key_set x [] m = refl
has_key-key_set x (s ∷ src) m = let ih = has_key-key_set x src (s ∷ m) in ground arith

count-append_new :
    (x : String) (m target src : List String)
    → count x (append_new m target src) ≡ count x src + (if has_key x m then 0 else count x target)
unfolding append_new
count-append_new x m [] src = ground arith
count-append_new x m (t ∷ target) src =
    let ih = count-append_new x m target (if has_key t m then src else src ++ t ∷ []) in
    let here = count_append x src (t ∷ []) in
    elim (Bool-cases (str_eq t x)) [
      | inl same ↦
          let kept : has_key t m ≡ has_key x m =
            ap (λ (k : String). has_key k m) (same_of_str_eq t x same) in
          ground arith
      | inr other ↦ ground arith
    ]

count_eq_zero : (x : String) (src : List String) → has_key x src ≡ false → count x src ≡ 0
unfolding has_key
count_eq_zero x [] none = refl
count_eq_zero x (s ∷ src) none = let ih = count_eq_zero x src in ground arith

-- The merged list has a name of the first list as often as the first list has it, and another name
-- as often as the second list has it.
pub count-merge_and_deduplicate_slice :
    (x : String) (src target : List String)
    → count x (merge_and_deduplicate_slice src target)
      ≡ (if has_key x src then count x src else count x target)
unfolding merge_and_deduplicate_slice has_key
count-merge_and_deduplicate_slice x src target =
    let made = has_key-key_set x src [] in
    let none = count_eq_zero x src in
    let kept = count-append_new x (key_set src []) target src in ground arith

-- ===== src/Middleware/Outgoing/Plain.antt =====
-- Outgoing metadata as an association list, to which pairs are added one by one: an instance of what
-- middleware/common.go uses of grpc-go.
use rk_grpc.Prelude.{
  String, ◌≡◌, refl, List, [], ◌∷◌, ◌++◌, append-nil, append_assoc, str_eq, if◌then◌else◌, true,
  false, same_of_str_eq, Bool-cases, inl, inr, sym, arith, eq_iff,
}
use rk_grpc.Middleware.Address.{values_of}
use rk_grpc.Middleware.Outgoing.{MetadataPackage, MetadataLaws, values_in}

-- A value behind the others of its name.
abbrev pub add_value : String → String → List (String × List String) → List (String × List String)
add_value j v [] = (j, v ∷ []) ∷ []
add_value j v ((i, vs) ∷ md) =
    if str_eq i j then (i, vs ++ v ∷ []) ∷ md else (i, vs) ∷ add_value j v md

abbrev pub add_pairs :
    (String → String)
    → List (String × List String)
    → List (String × String)
    → List (String × List String)
add_pairs lower md [] = md
add_pairs lower md ((j, v) ∷ kvs) = add_pairs lower (add_value (lower j) v md) kvs

other : (j i k : String) → str_eq i j ≡ false → str_eq i k ≡ true → str_eq j k ≡ false
other j i k n f = ground (arith, eq_iff i j, eq_iff i k, eq_iff j k)

values_of-add_value :
    (j v k : String) (md : List (String × List String))
    → values_of k (add_value j v md) ≡ values_of k md ++ (if str_eq j k then v ∷ [] else [])
unfolding values_of
values_of-add_value j v k [] = ground (arith, eq_iff j k)
values_of-add_value j v k ((i, vs) ∷ md) = elim (Bool-cases (str_eq i j)) [
  | inl e ↦ elim (Bool-cases (str_eq j k)) [
    | inl f ↦ rw (e, same_of_str_eq i j e, f) refl
    | inr f ↦ rw (e, same_of_str_eq i j e, f) (sym (append-nil (values_of k md)))
  ]
  | inr n ↦ elim (Bool-cases (str_eq i k)) [
    | inl f ↦ rw (n, f, other j i k n f) (sym (append-nil vs))
    | inr f ↦ rw (n, f) (values_of-add_value j v k md)
  ]
]

values_of-add_pairs :
    (lower : String → String) (k : String) (md : List (String × List String))
    (kvs : List (String × String))
    → values_of k (add_pairs lower md kvs) ≡ values_of k md ++ values_in lower k kvs
unfolding values_in
values_of-add_pairs lower k md [] = sym (append-nil (values_of k md))
values_of-add_pairs lower k md ((j, v) ∷ kvs) = elim (Bool-cases (str_eq (lower j) k)) [
  | inl e ↦
      let added = values_of-add_value (lower j) v k md in
      rw (e, values_of-add_pairs lower k (add_value (lower j) v md) kvs, added, e)
        (append_assoc (values_of k md) (v ∷ []) (values_in lower k kvs))
  | inr n ↦
      let added = values_of-add_value (lower j) v k md in
      rw
        (
          n,
          values_of-add_pairs lower k (add_value (lower j) v md) kvs,
          added,
          n,
          append-nil (values_of k md),
        )
        refl
]

module _ (lower : String → String) where
  abbrev pub plain_metadata : MetadataPackage
  plain_metadata = record { append_to_outgoing = add_pairs lower; to_lower = lower }

  pub plain_metadata-Laws : MetadataLaws plain_metadata
  plain_metadata-Laws = record { appends = λ md kvs k. values_of-add_pairs lower k md kvs }

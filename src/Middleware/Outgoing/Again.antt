-- ===== src/Middleware/Outgoing/Again.antt =====
-- What MergeToOutgoingMD, middleware/common.go, makes of metadata that it is given twice.
use rk_grpc.Prelude.{
  String, ◌≡◌, refl, ◌≢◌, true, false, none, some, List, [], ◌∷◌, ◌++◌, str_eq, eq_iff, All,
  if◌then◌else◌, arith, Bool-cases, Option-cases, append-nil, same_of_str_eq, subst, inl, inr,
}
use rk_grpc.Middleware.Address.{values_of, or_nil}
use rk_grpc.Middleware.Outgoing.{
  OutgoingContext, MetadataPackage, MetadataLaws, values_in, name_values, to_kvs,
  merge_to_outgoing_md,
}

-- Metadata as metadata.New and metadata.Pairs make it: each name once, in lower case.
abbrev pub IsMetadata : (String → String) → List (String × List String) → Type 0
IsMetadata lower [] = Unit
IsMetadata lower ((k, vs) ∷ md) = (lower k ≡ k) × All (λ e. e.0 ≢ k) md × IsMetadata lower md

values_in-name_values :
    (lower : String → String) (k j : String) (vs : List String) (kvs : List (String × String))
    → values_in lower k (name_values j vs ++ kvs)
      ≡ (if str_eq (lower j) k then vs ++ values_in lower k kvs else values_in lower k kvs)
unfolding values_in name_values
values_in-name_values lower k j [] kvs = ground arith
values_in-name_values lower k j (v ∷ vs) kvs =
    ground (arith, values_in-name_values lower k j vs kvs)

values_in-absent :
    (lower : String → String) (k : String) (md : List (String × List String))
    → IsMetadata lower md
    → All (λ e. e.0 ≢ k) md
    → values_in lower k (to_kvs md) ≡ []
unfolding to_kvs values_in
values_in-absent lower k [] h a = refl
values_in-absent lower k ((j, vs) ∷ md) h a = ground (
  arith,
  values_in-name_values lower k j vs (to_kvs md),
  eq_iff (lower j) k,
  values_in-absent lower k md,
)

values_in-to_kvs :
    (lower : String → String) (k : String) (md : List (String × List String))
    → IsMetadata lower md
    → values_in lower k (to_kvs md) ≡ values_of k md
unfolding to_kvs values_in values_of
values_in-to_kvs lower k [] h = refl
values_in-to_kvs lower k ((j, vs) ∷ md) h = elim (Bool-cases (str_eq j k)) [
  | inl e ↦
      rw
        (
          values_in-name_values lower k j vs (to_kvs md),
          h.0,
          e,
          values_in-absent lower k md h.2
              (subst (λ j. All (λ e. e.0 ≢ j) md) (same_of_str_eq j k e) h.1),
          append-nil vs,
        )
        refl
  | inr e ↦
      rw (values_in-name_values lower k j vs (to_kvs md), h.0, e) (values_in-to_kvs lower k md h.2)
]

module _ (M : MetadataPackage) (L : MetadataLaws M) where
  merged_none :
      (ctx : OutgoingContext) (md : List (String × List String))
      → ctx.appended ≡ false
      → ctx.outgoing ≡ none
      → merge_to_outgoing_md M ctx md ≡ record { appended = false; outgoing = some md }
  unfolding merge_to_outgoing_md
  merged_none ctx md f e = cc (f, e)

  merged_some :
      (ctx : OutgoingContext) (out md : List (String × List String))
      → ctx.appended ≡ false
      → ctx.outgoing ≡ some out
      → merge_to_outgoing_md M ctx md
        ≡ record { appended = true; outgoing = some (M.append_to_outgoing out (to_kvs md)) }
  unfolding merge_to_outgoing_md
  merged_some ctx out md f e = rw (f, e) refl

  merged_appended :
      (ctx : OutgoingContext) (md : List (String × List String))
      → ctx.appended ≡ true
      → merge_to_outgoing_md M ctx md ≡ ctx
  unfolding merge_to_outgoing_md
  merged_appended ctx md t = rw (t) refl

  -- The values of a name that metadata adds to other metadata.
  values_of-append :
      (out md : List (String × List String)) (k : String)
      → IsMetadata M.to_lower md
      → values_of k (M.append_to_outgoing out (to_kvs md)) ≡ values_of k out ++ values_of k md
  values_of-append out md k h = cc (L.appends out (to_kvs md) k, values_in-to_kvs M.to_lower k md h)

  -- A context that has outgoing metadata gets the values of the merged metadata once, behind its
  -- own, however often it is merged; one that has none gets them twice where it is merged twice.
  pub merge_to_outgoing_md-again :
      (ctx : OutgoingContext) (md : List (String × List String)) (k : String)
      → ctx.appended ≡ false
      → IsMetadata M.to_lower md
      → values_of k (or_nil (merge_to_outgoing_md M (merge_to_outgoing_md M ctx md) md).outgoing)
        ≡ elim (ctx.outgoing) as (λ o. List String) [
          | some out ↦ values_of k out ++ values_of k md
          | none ↦ values_of k md ++ values_of k md
        ]
  unfolding merge_to_outgoing_md
  merge_to_outgoing_md-again ctx md k fresh h = elim (Option-cases ctx.outgoing) [
    | inl e ↦ rw (merged_none ctx md fresh e, e) (values_of-append md md k h)
    | inr (out, e) ↦ rw (merged_some ctx out md fresh e, e) (values_of-append out md k h)
  ]

-- ===== src/Middleware/Outgoing.antt =====
-- MergeToOutgoingMD, middleware/common.go. metadata.AppendToOutgoingContext of grpc-go is a parameter;
-- of a context there is the outgoing metadata, if it has some, and whether it has a value under
-- RpcPayloadAppended.
pub mod Again
pub mod Plain
use rk_grpc.Prelude.{
  String, ◌≡◌, Bool, true, false, Option, none, some, List, [], ◌∷◌, ◌++◌, str_eq, if◌then◌else◌,
}
use rk_grpc.Middleware.Address.{values_of}

pub record OutgoingContext : Type 0 where
  pub appended : Bool
  pub outgoing : Option (List (String × List String))

-- The outgoing metadata with pairs appended, and strings.ToLower.
pub record MetadataPackage : Type 0 where
  pub append_to_outgoing :
      List (String × List String) → List (String × String) → List (String × List String)
  pub to_lower : String → String

-- The values of pairs whose name, in lower case, is this.
unfoldable pub values_in : (String → String) → String → List (String × String) → List String
values_in lower k [] = []
values_in lower k ((j, v) ∷ kvs) =
    if str_eq (lower j) k then v ∷ values_in lower k kvs else values_in lower k kvs

-- Documented: pairs are added to the values that their names have, the names in lower case.
pub record MetadataLaws (M : MetadataPackage) : Type 0 where
  pub appends :
      (md : List (String × List String)) (kvs : List (String × String)) (k : String)
      → values_of k (M.append_to_outgoing md kvs) ≡ values_of k md ++ values_in M.to_lower k kvs

-- The loop over the values of a name, and the loop over the map.
unfoldable pub name_values : String → List String → List (String × String)
name_values k [] = []
name_values k (v ∷ vs) = (k, v) ∷ name_values k vs

unfoldable pub to_kvs : List (String × List String) → List (String × String)
unfolding name_values
to_kvs [] = []
to_kvs ((k, vs) ∷ md) = name_values k vs ++ to_kvs md

unfoldable pub merge_to_outgoing_md :
    MetadataPackage → OutgoingContext → List (String × List String) → OutgoingContext
unfolding to_kvs
merge_to_outgoing_md M ctx md = if ctx.appended then ctx else elim (ctx.outgoing) [
  | some out ↦ record { appended = true; outgoing = some (M.append_to_outgoing out (to_kvs md)) }
  | none ↦ record ctx { outgoing = some md }
]

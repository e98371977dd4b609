-- ===== src/Middleware/Payload.antt =====
-- The payload of a server context, middleware/common.go: a map that the context carries under
-- serverPayloadKey, shared by all contexts derived from it. The maps stand in a heap, and a
-- context has the address of its map; what else a context carries is not touched here. The equality
-- of keys is Go's equality of interface values; a key that cannot be hashed is not considered.
pub mod Laws
use rk_grpc.Prelude.{
  ℕ, zero, suc, Bool, true, false, Option, none, some, List, [], ◌∷◌, ◌++◌, if◌then◌else◌, length,
}

-- `context.Context`, with `payload` the address in `ctx.Value(serverPayloadKey)`.
pub record Context : Type 0 where
  pub payload : Option ℕ

-- `map[interface{}]interface{}`, an entry put in front of the one that it replaces.
abbrev pub Payload : Type 0 → Type 0 → Type 0
Payload K V = List (K × V)

module _ {K V : Type 0} where
  -- `make(map[interface{}]interface{})`: its address and the heap after it.
  unfoldable pub make_map : List (Payload K V) → ℕ × List (Payload K V)
  make_map heap = (length heap, heap ++ [] ∷ [])

  unfoldable pub wrap_context_for_server :
      Context → List (Payload K V) → Context × List (Payload K V)
  unfolding make_map
  wrap_context_for_server ctx heap = elim (ctx.payload) [
    | some a ↦ (ctx, heap)
    | none ↦ let (a, heap') = make_map heap in (record { payload = some a }, heap')
  ]

  -- The context may be nil.
  unfoldable pub get_server_context_payload :
      Option Context → List (Payload K V) → ℕ × List (Payload K V)
  unfolding make_map
  get_server_context_payload none heap = make_map heap
  get_server_context_payload (some ctx) heap = elim (ctx.payload) [
    | some a ↦ (a, heap)
    | none ↦ make_map heap
  ]

  -- `m[key] = value`, of the map at an address.
  unfoldable pub set_key : K → V → ℕ → List (Payload K V) → List (Payload K V)
  set_key key value a [] = []
  set_key key value zero (m ∷ ms) = ((key, value) ∷ m) ∷ ms
  set_key key value (suc a) (m ∷ ms) = m ∷ set_key key value a ms

  -- The value may be nil.
  unfoldable pub add_to_server_context_payload :
      Option Context → K → Option V → List (Payload K V) → List (Payload K V)
  unfolding get_server_context_payload set_key
  add_to_server_context_payload ctx key none heap = heap
  add_to_server_context_payload ctx key (some value) heap =
      let (a, heap') = get_server_context_payload ctx heap in set_key key value a heap'

  -- `v, ok := m[key]`
  abbrev pub lookup : (K → K → Bool) → K → Payload K V → Option V
  lookup eq key [] = none
  lookup eq key ((k, v) ∷ m) = if eq k key then some v else lookup eq key m

  abbrev pub map_at : ℕ → List (Payload K V) → Payload K V
  map_at a [] = []
  map_at zero (m ∷ ms) = m
  map_at (suc a) (m ∷ ms) = map_at a ms

  -- `v, ok := GetServerContextPayload(ctx)[key]`
  unfoldable pub read_payload : (K → K → Bool) → Option Context → K → List (Payload K V) → Option V
  unfolding get_server_context_payload
  read_payload eq ctx key heap =
      let (a, heap') = get_server_context_payload ctx heap in lookup eq key (map_at a heap')

unfoldable pub contains_server_payload : Context → Bool
contains_server_payload ctx = elim (ctx.payload) [ some a ↦ true | none ↦ false ]

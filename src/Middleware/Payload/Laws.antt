-- ===== src/Middleware/Payload/Laws.antt =====
-- Of the payload of a server context, middleware/common.go: what is added is read again, through
-- every context that shares the map, and through no other.
use rk_grpc.Prelude.{
  ℕ, zero, suc, ◌<◌, ◌==◌, ◌≡◌, refl, sym, ap, ◌∙◌, Bool, true, false, Option, none, some, List, [],
  ◌∷◌, ◌++◌, if◌then◌else◌, length, arith,
}
use rk_grpc.Middleware.Payload.{
  Context, Payload, make_map, wrap_context_for_server, get_server_context_payload, set_key,
  add_to_server_context_payload, lookup, map_at, read_payload, contains_server_payload,
}

-- The map that a context has is in the heap.
abbrev pub IsAllocated : {K V : Type 0} → Context → List (Payload K V) → Type 0
IsAllocated ctx heap = elim (ctx.payload) [ some a ↦ a < length heap | none ↦ Unit ]

module _ {K V : Type 0} where
  map_at-set_key :
      (key : K) (value : V) (a b : ℕ) (heap : List (Payload K V))
      → a < length heap
      → map_at b (set_key key value a heap)
        ≡ (if a == b then (key, value) ∷ map_at b heap else map_at b heap)
  unfolding set_key
  map_at-set_key key value a b [] h = elim h [ ]
  map_at-set_key key value zero zero (m ∷ ms) h = refl
  map_at-set_key key value zero (suc b) (m ∷ ms) h = ground arith
  map_at-set_key key value (suc a) zero (m ∷ ms) h = ground arith
  map_at-set_key key value (suc a) (suc b) (m ∷ ms) h =
      let ih = map_at-set_key key value a b ms (omega arith) in ground arith

  -- A new map takes no address that is in use.
  map_at-make_map :
      (a : ℕ) (heap : List (Payload K V))
      → a < length heap
      → map_at a (make_map heap).1 ≡ map_at a heap
  unfolding make_map
  map_at-make_map a [] h = elim h [ ]
  map_at-make_map zero (m ∷ ms) h = refl
  map_at-make_map (suc a) (m ∷ ms) h = map_at-make_map a ms (omega arith)

  map_at_new : (heap : List (Payload K V)) → map_at (length heap) (heap ++ [] ∷ []) ≡ []
  map_at_new [] = refl
  map_at_new (m ∷ ms) = map_at_new ms

  length_new : (heap : List (Payload K V)) → length (heap ++ [] ∷ []) ≡ suc (length heap)
  length_new [] = refl
  length_new (m ∷ ms) = ground (arith, length_new ms)

  module _ (eq : K → K → Bool) where
    lookup_if :
        (b : Bool) (k : K) (m m' : Payload K V)
        → lookup eq k (if b then m else m') ≡ (if b then lookup eq k m else lookup eq k m')
    lookup_if true k m m' = refl
    lookup_if false k m m' = refl

    -- In a heap that has its maps, a value added through a context with a payload is read again
    -- under the same key by every context with the same payload; every other read, of another key
    -- or through a context with another payload, is what it was.
    pub read_payload-add_to_server_context_payload :
        (a b : ℕ) (key k : K) (value : V) (heap : List (Payload K V))
        → a < length heap
        → read_payload eq (some (record { payload = some b })) k (
            add_to_server_context_payload
              (some (record { payload = some a }))
              key
              (some value)
              heap)
          ≡ (if a == b
              then (if eq key k
                  then some value
                  else read_payload eq (some (record { payload = some b })) k heap)
              else read_payload eq (some (record { payload = some b })) k heap)
    unfolding read_payload add_to_server_context_payload get_server_context_payload
    read_payload-add_to_server_context_payload a b key k value heap h =
        rw (map_at-set_key key value a b heap h) (lookup_if (a == b) k _ _)

    read_own :
        (a : ℕ) (key : K) (value : V) (heap : List (Payload K V))
        → a < length heap
        → eq key key ≡ true
        → read_payload eq (some (record { payload = some a })) key (
            add_to_server_context_payload
              (some (record { payload = some a }))
              key
              (some value)
              heap)
          ≡ some value
    read_own a key value heap h same =
        let read = read_payload-add_to_server_context_payload a a key key value heap h in
        ground arith

    pub read_unwrapped :
        (k : K) (heap : List (Payload K V))
        → read_payload eq (some (record { payload = none })) k heap ≡ none
    unfolding read_payload get_server_context_payload make_map
    read_unwrapped k heap = rw (map_at_new heap) refl

    map_at-add_nil :
        (b : ℕ) (key : K) (value : V) (heap : List (Payload K V))
        → b < length heap
        → map_at b (add_to_server_context_payload none key (some value) heap) ≡ map_at b heap
    unfolding add_to_server_context_payload get_server_context_payload make_map
    map_at-add_nil b key value heap h =
        let longer = length_new heap in
        let set = map_at-set_key key value (length heap) b (heap ++ [] ∷ []) (omega arith) in
        let old = map_at-make_map b heap h in ground arith

    read-add_nil :
        (p : Option ℕ) (key k : K) (value : Option V) (heap : List (Payload K V))
        → IsAllocated (record { payload = p }) heap
        → read_payload eq
            (some (record { payload = p }))
            k
            (add_to_server_context_payload none key value heap)
          ≡ read_payload eq (some (record { payload = p })) k heap
    unfolding read_payload get_server_context_payload add_to_server_context_payload
    read-add_nil p key k none heap h = refl
    read-add_nil none key k (some value) heap h =
        read_unwrapped k (add_to_server_context_payload none key (some value) heap)
        ∙ sym (read_unwrapped k heap)
    read-add_nil (some b) key k (some value) heap h =
        ap (lookup eq k) (map_at-add_nil b key value heap h)

    add_unwrapped :
        (key : K) (value : Option V) (heap : List (Payload K V))
        → add_to_server_context_payload (some (record { payload = none })) key value heap
          ≡ add_to_server_context_payload none key value heap
    unfolding add_to_server_context_payload get_server_context_payload
    add_unwrapped key none heap = refl
    add_unwrapped key (some value) heap = refl

    -- What is added through a nil context, or through one that is not wrapped, is lost: no context
    -- whose map is in the heap reads anything else than before.
    unwrapped_add_is_lost :
        (reader : Context) (key k : K) (value : Option V) (heap : List (Payload K V))
        → IsAllocated reader heap
        → (read_payload eq (some reader) k (add_to_server_context_payload none key value heap)
            ≡ read_payload eq (some reader) k heap)
          × (read_payload eq
                (some reader)
                k
                (add_to_server_context_payload (some (record { payload = none })) key value heap)
              ≡ read_payload eq (some reader) k heap)
    unwrapped_add_is_lost reader key k value heap h =
        let lost = read-add_nil reader.payload key k value heap h in
        (lost, rw (add_unwrapped key value heap) lost)

    wrap-then_add :
        (p : Option ℕ) (key : K) (value : V) (heap : List (Payload K V))
        → IsAllocated (record { payload = p }) heap
        → eq key key ≡ true
        → let (c, h) = wrap_context_for_server (record { payload = p }) heap in
          (contains_server_payload c ≡ true)
          × IsAllocated c h
          × (wrap_context_for_server c h ≡ (c, h))
          × (read_payload eq
                (some c)
                key
                (add_to_server_context_payload (some c) key (some value) h)
              ≡ some value)
    unfolding wrap_context_for_server contains_server_payload make_map
    wrap-then_add (some a) key value heap h same = (refl, h, refl, read_own a key value heap h same)
    wrap-then_add none key value heap h same =
        let longer = length_new heap in
        let at_end : length heap < length (heap ++ [] ∷ []) = omega arith in
        (refl, at_end, refl, read_own (length heap) key value _ at_end same)

    -- Wrapping a context gives one that contains a payload, whose map is in the heap, which a
    -- second wrapping leaves as it is, and which gives back what is added through it, where Go
    -- finds a key equal to itself.
    pub wrap_context_for_server-then_add :
        (ctx : Context) (key : K) (value : V) (heap : List (Payload K V))
        → IsAllocated ctx heap
        → eq key key ≡ true
        → let (c, h) = wrap_context_for_server ctx heap in
          (contains_server_payload c ≡ true)
          × IsAllocated c h
          × (wrap_context_for_server c h ≡ (c, h))
          × (read_payload eq
                (some c)
                key
                (add_to_server_context_payload (some c) key (some value) h)
              ≡ some value)
    wrap_context_for_server-then_add ctx key value heap h same =
        wrap-then_add ctx.payload key value heap h same

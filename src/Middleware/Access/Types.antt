-- ===== src/Middleware/Access/Types.antt =====
-- The types of the values in a payload: where each value under a key of rk-entry has the type that
-- the accessors of middleware/context/context.go assert, no assertion fails.
use rk_grpc.Prelude.{
  ℕ, zero, suc, String, ◌≡◌, true, Option, some, [], ◌∷◌, ◌++◌, All, Bool-cases, Option-cases, inl,
  inr,
}
use rk_grpc.Middleware.Payload.{
  Context, Payload, make_map, wrap_context_for_server, get_server_context_payload, set_key,
  add_to_server_context_payload, lookup, map_at, read_payload,
}
use rk_grpc.Middleware.Access.{
  Runtime, Value, text, event, logger, span, tracer, tracer_provider, propagator, object, Heap,
}

-- The dynamic types of the values.
pub data Tag : Type 0 where
  text_tag : Tag
  event_tag : Tag
  logger_tag : Tag
  span_tag : Tag
  tracer_tag : Tag
  tracer_provider_tag : Tag
  propagator_tag : Tag
  object_tag : Tag

unfoldable pub tag_of : {R : Runtime} → Value R → Tag
tag_of (text s) = text_tag
tag_of (event e) = event_tag
tag_of (logger l) = logger_tag
tag_of (span s) = span_tag
tag_of (tracer t) = tracer_tag
tag_of (tracer_provider p) = tracer_provider_tag
tag_of (propagator p) = propagator_tag
tag_of (object o) = object_tag

-- Documented: equal keys are one key, and the keys of rk-entry and the names of headers are
-- different keys, so that each can have a type of its own.
pub record KeyTypes (R : Runtime) : Type 0 where
  pub type_of : R.Key → Option Tag
  pub type_of_eq : (k j : R.Key) → R.key_eq k j ≡ true → type_of k ≡ type_of j
  pub entry_name : type_of R.entry_name_key ≡ some text_tag
  pub event : type_of R.event_key ≡ some event_tag
  pub logger : type_of R.logger_key ≡ some logger_tag
  pub span : type_of R.span_key ≡ some span_tag
  pub tracer : type_of R.tracer_key ≡ some tracer_tag
  pub tracer_provider : type_of R.tracer_provider_key ≡ some tracer_provider_tag
  pub propagator : type_of R.propagator_key ≡ some propagator_tag
  pub header : (name : String) → type_of (R.header_key name) ≡ some text_tag

module _ {R : Runtime} (T : KeyTypes R) where
  abbrev pub IsTypedEntry : R.Key × Value R → Type 0
  IsTypedEntry (k, v) = (t : Tag) → T.type_of k ≡ some t → tag_of v ≡ t

  -- Every value of every payload has the type of its key, if its key has one.
  abbrev pub IsTyped : Heap R → Type 0
  IsTyped heap = All (All IsTypedEntry) heap

  typed_entry : (k : R.Key) (v : Value R) → T.type_of k ≡ some (tag_of v) → IsTypedEntry (k, v)
  typed_entry k v e t h = cc (e, h)

  set_key-IsTyped :
      (k : R.Key) (v : Value R) (a : ℕ) (heap : Heap R)
      → IsTypedEntry (k, v)
      → IsTyped heap
      → IsTyped (set_key k v a heap)
  unfolding set_key
  set_key-IsTyped k v a [] e h = h
  set_key-IsTyped k v zero (m ∷ ms) e (hm, hs) = ((e, hm), hs)
  set_key-IsTyped k v (suc a) (m ∷ ms) e (hm, hs) = (hm, set_key-IsTyped k v a ms e hs)

  new_map-IsTyped : (heap : Heap R) → IsTyped heap → IsTyped (heap ++ [] ∷ [])
  new_map-IsTyped [] h = (tt, tt)
  new_map-IsTyped (m ∷ ms) (hm, hs) = (hm, new_map-IsTyped ms hs)

  pub wrap_context_for_server-IsTyped :
      (ctx : Context) (heap : Heap R) → IsTyped heap → IsTyped (wrap_context_for_server ctx heap).1
  unfolding wrap_context_for_server make_map
  wrap_context_for_server-IsTyped ctx heap h = elim (Option-cases ctx.payload) [
    | inl e ↦ rw e (new_map-IsTyped heap h)
    | inr (a, e) ↦ rw e h
  ]

  get_server_context_payload-IsTyped :
      (ctx : Context) (heap : Heap R)
      → IsTyped heap
      → IsTyped (get_server_context_payload (some ctx) heap).1
  unfolding get_server_context_payload make_map
  get_server_context_payload-IsTyped ctx heap h = elim (Option-cases ctx.payload) [
    | inl e ↦ rw e (new_map-IsTyped heap h)
    | inr (a, e) ↦ rw e h
  ]

  pub add_to_server_context_payload-IsTyped :
      (ctx : Context) (k : R.Key) (v : Value R) (heap : Heap R)
      → T.type_of k ≡ some (tag_of v)
      → IsTyped heap
      → IsTyped (add_to_server_context_payload (some ctx) k (some v) heap)
  unfolding add_to_server_context_payload
  add_to_server_context_payload-IsTyped ctx k v heap e h =
      let (a, heap') = get_server_context_payload (some ctx) heap in
      set_key-IsTyped k v a heap' (typed_entry k v e)
        (get_server_context_payload-IsTyped ctx heap h)

  map_at-IsTyped : (a : ℕ) (heap : Heap R) → IsTyped heap → All IsTypedEntry (map_at a heap)
  map_at-IsTyped a [] h = tt
  map_at-IsTyped zero (m ∷ ms) (hm, hs) = hm
  map_at-IsTyped (suc a) (m ∷ ms) (hm, hs) = map_at-IsTyped a ms hs

  lookup-IsTyped :
      (key : R.Key) (m : Payload R.Key (Value R)) (v : Value R) (t : Tag)
      → All IsTypedEntry m
      → T.type_of key ≡ some t
      → lookup R.key_eq key m ≡ some v
      → tag_of v ≡ t
  lookup-IsTyped key [] v t h k e = absurd (cc e)
  lookup-IsTyped key ((j, x) ∷ m) v t (hx, hm) k e = elim (Bool-cases (R.key_eq j key)) [
    | inl same ↦ cc (hx t (cc (T.type_of_eq j key same, k)), rw same at e)
    | inr other ↦ lookup-IsTyped key m v t hm k (rw other at e)
  ]

  -- What is read under a key has the key's type.
  pub read_payload-IsTyped :
      (ctx : Context) (key : R.Key) (v : Value R) (t : Tag) (heap : Heap R)
      → IsTyped heap
      → T.type_of key ≡ some t
      → read_payload R.key_eq (some ctx) key heap ≡ some v
      → tag_of v ≡ t
  unfolding read_payload
  read_payload-IsTyped ctx key v t heap h k e =
      let (a, heap') = get_server_context_payload (some ctx) heap in
      lookup-IsTyped key (map_at a heap') v t
        (map_at-IsTyped a heap' (get_server_context_payload-IsTyped ctx heap h)) k e

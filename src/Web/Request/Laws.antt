-- ===== src/Web/Request/Laws.antt =====
-- What GreeterRequest promises of its two binary methods
-- (example/boot/grpc-web/api/gen/v1/greeter_pb.js).
use rk_grpc.Prelude.{
  ℕ, ◌≤◌, ◌<◌, String, ◌≡◌, refl, ◌≢◌, List, [], ◌∷◌, ◌∙◌, ap, sym, arith, length, All, Bool-cases,
  inl, inr, str_eq, eq_iff, none, if◌then◌else◌,
}
use rk_grpc.Web.Jspb.{
  Jspb, returned, out_of_fuel, WireField, text, AccessorLaws, WireLaws, ProgressLaws,
}
use rk_grpc.Web.Request.{get_message, deserialize_binary, serialize_binary}
use rk_grpc.Web.Request.Decode.{
  last_text, IsTyped, deserialize_binary_from_reader-last_text,
  deserialize_binary_from_reader-ne-out_of_fuel,
}

-- What `serializeBinary` writes: nothing for the empty text, otherwise one field.
abbrev pub fields_of : String → List WireField
fields_of s = if str_eq s "" then [] else text 1 s ∷ []

fields_of_lem :
    (s : String)
    → (length (fields_of s) ≤ 1) × All IsTyped (fields_of s) × (last_text (fields_of s) "" ≡ s)
fields_of_lem s = elim (Bool-cases (str_eq s "")) [
  | inl empty ↦ rw empty (omega arith, tt, sym ((eq_iff s "").0 empty))
  | inr full ↦ rw full (omega arith, (tt, tt), refl)
]

module _ (J : Jspb) (A : AccessorLaws J) (W : WireLaws J) where
  -- A buffer whose fields under number 1 are texts is decoded, with more fuel than it has fields,
  -- into a message that holds the last text under number 1 before the first end-of-group tag, and
  -- the empty text if there is none.
  pub deserialize_binary-last_text :
      (fuel : ℕ) (bytes : J.Bytes) (fs : List WireField)
      → length fs < fuel
      → All IsTyped fs
      → W.unread (J.new_reader bytes) ≡ fs
      → (msg : J.Message) × (deserialize_binary J fuel bytes ≡ returned msg)
        × (get_message J msg ≡ last_text fs "")
  unfolding deserialize_binary get_message
  deserialize_binary-last_text fuel bytes fs h t u =
      let (msg, returns, meaning) =
        deserialize_binary_from_reader-last_text J A W fuel (J.initialize none) (J.new_reader bytes)
          fs h t u in
      (msg, returns, meaning ∙ ap (last_text fs) (A.get_initialize 1 ""))

  pub serialize_binary-written :
      (msg : J.Message)
      → W.unread (J.new_reader (serialize_binary J msg)) ≡ fields_of (get_message J msg)
  unfolding serialize_binary get_message
  serialize_binary-written msg =
      let f = J.get_field_with_default msg 1 "" in
      W.unread_result _ ∙ (elim (Bool-cases (str_eq f "")) [
        | inl empty ↦ rw empty W.written_new
        | inr full ↦ rw (full, W.written_string J.new_writer 1 f, W.written_new)
      ])

  -- Serialising a message and decoding the buffer, with fuel for two rounds, gives a message with
  -- the same text.
  pub deserialize_binary-serialize_binary :
      (fuel : ℕ) (msg : J.Message)
      → 1 < fuel
      → (msg' : J.Message) × (deserialize_binary J fuel (serialize_binary J msg) ≡ returned msg')
        × (get_message J msg' ≡ get_message J msg)
  deserialize_binary-serialize_binary fuel msg h =
      let (short, typed, last) = fields_of_lem (get_message J msg) in
      let (msg', returns, meaning) =
        deserialize_binary-last_text fuel (serialize_binary J msg) (fields_of (get_message J msg))
          (omega (arith, short)) typed (serialize_binary-written msg) in
      (msg', returns, meaning ∙ last)

-- With more fuel than the reader has bytes ahead of it, decoding ends on every input, malformed
-- ones included: it returns a message or throws.
pub deserialize_binary-ne-out_of_fuel :
    (J : Jspb) (P : ProgressLaws J) (fuel : ℕ) (bytes : J.Bytes)
    → P.left (J.new_reader bytes) < fuel
    → deserialize_binary J fuel bytes ≢ out_of_fuel
unfolding deserialize_binary
deserialize_binary-ne-out_of_fuel J P fuel bytes h =
    deserialize_binary_from_reader-ne-out_of_fuel J P fuel (J.initialize none) (J.new_reader bytes)
      h

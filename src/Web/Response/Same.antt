-- ===== src/Web/Response/Same.antt =====
-- The two message classes of example/boot/grpc-web/api/gen/v1/greeter_pb.js have the same wire
-- format, so what is proved of GreeterRequest holds of GreeterResponse.
use rk_grpc.Prelude.{ℕ, zero, suc, ◌≡◌, refl, true, false, inl, inr, Option-cases, arith}
use rk_grpc.Web.Jspb.{Jspb}
use rk_grpc.Web.Request
use rk_grpc.Web.Response.{
  get_message, deserialize_binary_from_reader, deserialize_binary, serialize_binary, read_field,
}

module _ (J : Jspb) where
  read_field-Request :
      (msg : J.Message) (r : J.Reader) → read_field J msg r ≡ Request.read_field J msg r
  unfolding read_field Request.read_field
  read_field-Request msg r = refl

  deserialize_binary_from_reader-Request :
      (fuel : ℕ) (msg : J.Message) (r : J.Reader)
      → deserialize_binary_from_reader J fuel msg r
        ≡ Request.deserialize_binary_from_reader J fuel msg r
  unfolding deserialize_binary_from_reader Request.deserialize_binary_from_reader
  deserialize_binary_from_reader-Request zero msg r = refl
  deserialize_binary_from_reader-Request (suc fuel) msg r = elim (Option-cases (J.next_field r)) [
    | inl bad ↦ ground arith
    | inr ((false, r'), next) ↦ ground arith
    | inr ((true, r'), next) ↦ elim (Option-cases (Request.read_field J msg r')) [
      | inl bad ↦ ground (arith, read_field-Request msg r')
      | inr ((msg', rest), reads) ↦
          ground (
            arith,
            read_field-Request msg r',
            deserialize_binary_from_reader-Request fuel msg' rest,
          )
    ]
  ]

  -- The two classes decode alike, on every buffer and with any fuel.
  pub deserialize_binary-Request :
      (fuel : ℕ) (bytes : J.Bytes)
      → deserialize_binary J fuel bytes ≡ Request.deserialize_binary J fuel bytes
  unfolding deserialize_binary Request.deserialize_binary
  deserialize_binary-Request fuel bytes = deserialize_binary_from_reader-Request fuel _ _

  pub serialize_binary-Request :
      (msg : J.Message) → serialize_binary J msg ≡ Request.serialize_binary J msg
  unfolding serialize_binary Request.serialize_binary
  serialize_binary-Request msg = refl

  pub get_message-Request : (msg : J.Message) → get_message J msg ≡ Request.get_message J msg
  unfolding get_message Request.get_message
  get_message-Request msg = refl

-- ===== src/Web/Request.antt =====
-- The class proto.api.v1.GreeterRequest of example/boot/grpc-web/api/gen/v1/greeter_pb.js.
pub mod Decode
pub mod Laws
use rk_grpc.Prelude.{
  ℕ, zero, suc, String, Bool, true, false, Option, none, some, str_eq, ◌==◌, if◌then◌else◌,
}
use rk_grpc.Web.Jspb.{Jspb, Run, returned, thrown, out_of_fuel}

-- The plain object that `toObject` returns; `instance_of` is its `$jspbMessageInstance`.
pub record GreeterRequestObject (J : Jspb) : Type 0 where
  pub message : String
  pub instance_of : Option J.Message

module _ (J : Jspb) where
  -- `new proto.api.v1.GreeterRequest(opt_data)`
  unfoldable pub new_greeter_request : Option J.Init → J.Message
  new_greeter_request opt_data = J.initialize opt_data

  unfoldable pub get_message : J.Message → String
  get_message msg = J.get_field_with_default msg 1 ""

  unfoldable pub set_message : J.Message → String → J.Message
  set_message msg value = J.set_proto3_string_field msg 1 value

  -- The static `toObject`; the method of that name calls it on `this`.
  unfoldable pub to_object : Bool → J.Message → GreeterRequestObject J
  to_object include_instance msg =
      let obj : GreeterRequestObject J = record {
        message = J.get_field_with_default msg 1 "";
        instance_of = none;
      } in
      if include_instance then record obj { instance_of = some msg } else obj

  -- The body of the `switch`: the reader has stopped at a field that does not end a group.
  unfoldable pub read_field : J.Message → J.Reader → Option (J.Message × J.Reader)
  unfolding set_message
  read_field msg reader =
      if J.get_field_number reader == 1
      then elim (J.read_string reader) [
        | none ↦ none
        | some (value, reader') ↦ some (set_message msg value, reader')
      ]
      else elim (J.skip_field reader) [ none ↦ none | some reader' ↦ some (msg, reader') ]

  -- The `while (reader.nextField())` loop; each round takes one unit of fuel.
  unfoldable pub deserialize_binary_from_reader : ℕ → J.Message → J.Reader → Run J.Message
  deserialize_binary_from_reader zero msg reader = out_of_fuel
  deserialize_binary_from_reader (suc fuel) msg reader = elim (J.next_field reader) [
    | none ↦ thrown
    | some (false, reader') ↦ returned msg
    | some (true, reader') ↦ elim (J.is_end_group reader') [
      | true ↦ returned msg
      | false ↦ elim (read_field msg reader') [
        | none ↦ thrown
        | some (msg', rest) ↦ deserialize_binary_from_reader fuel msg' rest
      ]
    ]
  ]

  unfoldable pub deserialize_binary : ℕ → J.Bytes → Run J.Message
  unfolding new_greeter_request
  deserialize_binary fuel bytes =
      deserialize_binary_from_reader fuel (new_greeter_request none) (J.new_reader bytes)

  unfoldable pub serialize_binary_to_writer : J.Message → J.Writer → J.Writer
  unfolding get_message
  serialize_binary_to_writer message writer =
      let f = get_message message in if str_eq f "" then writer else J.write_string writer 1 f

  unfoldable pub serialize_binary : J.Message → J.Bytes
  unfolding serialize_binary_to_writer
  serialize_binary msg = J.get_result_buffer (serialize_binary_to_writer msg J.new_writer)

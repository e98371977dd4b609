-- ===== src/Web/Jspb.antt =====
-- What example/boot/grpc-web/api/gen/v1/greeter_pb.js uses of the library google-protobuf: the
-- operations of jspb.Message, jspb.BinaryReader and jspb.BinaryWriter, as a record of parameters.
-- A reader or a writer is a value that each call returns anew. A call that may throw on malformed
-- bytes returns `none` where it throws.
use rk_grpc.Prelude.{
  ℕ, ◌≤◌, ◌<◌, String, ◌≡◌, Bool, true, false, Option, none, some, List, [], ◌∷◌, ◌++◌,
}

-- How a method of a message class ends. Only a loop whose fuel runs out gives `out_of_fuel`.
pub data Run {ℓ} (A : Type ℓ) : Type ℓ where
  returned : A → Run A
  thrown : Run A
  out_of_fuel : Run A

pub record Jspb : Type 1 where
  pub Bytes : Type 0
  pub Init : Type 0
  pub Message : Type 0
  pub Reader : Type 0
  pub Writer : Type 0
  pub initialize : Option Init → Message
  pub get_field_with_default : Message → ℕ → String → String
  pub set_proto3_string_field : Message → ℕ → String → Message
  pub new_reader : Bytes → Reader
  pub next_field : Reader → Option (Bool × Reader)
  pub is_end_group : Reader → Bool
  pub get_field_number : Reader → ℕ
  pub read_string : Reader → Option (String × Reader)
  pub skip_field : Reader → Option Reader
  pub new_writer : Writer
  pub write_string : Writer → ℕ → String → Writer
  pub get_result_buffer : Writer → Bytes

-- One field of the wire format: a text, an end-of-group tag, or a field of any other kind.
pub data WireField : Type 0 where
  text : ℕ → String → WireField
  end_group : ℕ → WireField
  other : ℕ → WireField

abbrev pub number : WireField → ℕ
number (text n s) = n
number (end_group n) = n
number (other n) = n

abbrev pub ends_group : WireField → Bool
ends_group (end_group n) = true
ends_group _ = false

-- The documented behaviour of the accessors: what a string setter stores, the getter returns, and
-- a message with no initial array has no field set.
pub record AccessorLaws (J : Jspb) : Type 0 where
  pub get_set :
      (m : J.Message) (n : ℕ) (s : String)
      → J.get_field_with_default (J.set_proto3_string_field m n s) n "" ≡ s
  pub get_initialize : (n : ℕ) (s : String) → J.get_field_with_default (J.initialize none) n s ≡ s

-- The documented behaviour of the reader and the writer on the wire format: `unread` is what lies
-- ahead of a reader, `current` the field that `nextField` has stopped at with what follows it, and
-- `written` what has gone into a writer.
pub record WireLaws (J : Jspb) : Type 0 where
  pub unread : J.Reader → List WireField
  pub current : J.Reader → Option (WireField × List WireField)
  pub written : J.Writer → List WireField
  pub next_at_end :
      (r : J.Reader) → unread r ≡ [] → (r' : J.Reader) × (J.next_field r ≡ some (false, r'))
  pub next_at_field :
      (r : J.Reader) (f : WireField) (fs : List WireField)
      → unread r ≡ f ∷ fs
      → (r' : J.Reader) × (J.next_field r ≡ some (true, r')) × (current r' ≡ some (f, fs))
  pub is_end_group_lem :
      (r : J.Reader) (f : WireField) (fs : List WireField)
      → current r ≡ some (f, fs)
      → J.is_end_group r ≡ ends_group f
  pub get_field_number_lem :
      (r : J.Reader) (f : WireField) (fs : List WireField)
      → current r ≡ some (f, fs)
      → J.get_field_number r ≡ number f
  pub read_string_lem :
      (r : J.Reader) (n : ℕ) (s : String) (fs : List WireField)
      → current r ≡ some (text n s, fs)
      → (r' : J.Reader) × (J.read_string r ≡ some (s, r')) × (unread r' ≡ fs)
  pub skip_field_lem :
      (r : J.Reader) (f : WireField) (fs : List WireField)
      → current r ≡ some (f, fs)
      → ends_group f ≡ false
      → (r' : J.Reader) × (J.skip_field r ≡ some r') × (unread r' ≡ fs)
  pub written_new : written J.new_writer ≡ []
  pub written_string :
      (w : J.Writer) (n : ℕ) (s : String)
      → written (J.write_string w n s) ≡ written w ++ text n s ∷ []
  pub unread_result : (w : J.Writer) → unread (J.new_reader (J.get_result_buffer w)) ≡ written w

-- Of any bytes, well formed or not: `nextField` consumes at least one byte where it finds a field,
-- and nothing gives bytes back.
pub record ProgressLaws (J : Jspb) : Type 0 where
  pub left : J.Reader → ℕ
  pub next_consumes : (r r' : J.Reader) → J.next_field r ≡ some (true, r') → left r' < left r
  pub read_keeps :
      (r r' : J.Reader) (s : String) → J.read_string r ≡ some (s, r') → left r' ≤ left r
  pub skip_keeps : (r r' : J.Reader) → J.skip_field r ≡ some r' → left r' ≤ left r

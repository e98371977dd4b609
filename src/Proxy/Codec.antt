-- ===== src/Proxy/Codec.antt =====
-- The codec of the proxy: `rawCodec`, `protoCodec` and `frame`, boot/proxy_entry.go. The codec of
-- protobuf (package proto) is a parameter.
use rk_grpc.Prelude.{String, ◌≡◌, refl, Option, none, some}

-- An `encoding.Codec` for values of a type: a failed call gives `none`, and Unmarshal returns the
-- value that it has filled in.
pub record Codec (B V : Type 0) : Type 0 where
  pub marshal : V → Option B
  pub unmarshal : B → V → Option V
  pub name : String

pub record Frame (B : Type 0) : Type 0 where
  pub payload : B

-- An `interface{}` value: a frame, or anything else.
pub data AnyValue (B V : Type 0) : Type 0 where
  frame : Frame B → AnyValue B V
  other : V → AnyValue B V

abbrev pub lift_other : {B V : Type 0} → Option V → Option (AnyValue B V)
lift_other none = none
lift_other (some v) = some (other v)

module _ {B V : Type 0} where
  unfoldable pub raw_marshal : Codec B V → AnyValue B V → Option B
  raw_marshal parent (frame out) = some out.payload
  raw_marshal parent (other v) = parent.marshal v

  unfoldable pub raw_unmarshal : Codec B V → B → AnyValue B V → Option (AnyValue B V)
  raw_unmarshal parent bytes (frame dst) = some (frame (record { payload = bytes }))
  raw_unmarshal parent bytes (other v) = lift_other (parent.unmarshal bytes v)

  unfoldable pub codec_with_fallback : Codec B V → Codec B (AnyValue B V)
  unfolding raw_marshal raw_unmarshal
  codec_with_fallback fallback = record {
    marshal = raw_marshal fallback;
    unmarshal = raw_unmarshal fallback;
    name = fallback.name;
  }

-- `&protoCodec{}` over the two functions of package proto.
unfoldable pub proto_codec : {B M : Type 0} → (M → Option B) → (B → M → Option M) → Codec B M
proto_codec marshal unmarshal = record {
  marshal = marshal;
  unmarshal = unmarshal;
  name = "rk-proto-codec";
}

-- `Codec()`
unfoldable pub proxy_codec :
    {B M : Type 0} → (M → Option B) → (B → M → Option M) → Codec B (AnyValue B M)
unfolding proto_codec codec_with_fallback
proxy_codec marshal unmarshal = codec_with_fallback (proto_codec marshal unmarshal)

-- The codec of the proxy passes bytes through: what is decoded into a frame is encoded again to the
-- same bytes, whatever they are and whatever the frame held; and on a value that is no frame it
-- does what the protobuf codec does, name included.
proxy_codec-transparent :
    {B M : Type 0} (marshal : M → Option B) (unmarshal : B → M → Option M) (bytes : B)
    (dst : Frame B) (m : M)
    → let c = proxy_codec marshal unmarshal in
      let p = proto_codec marshal unmarshal in
      ((v : AnyValue B M) × (c.unmarshal bytes (frame dst) ≡ some v) × (c.marshal v ≡ some bytes))
      × (c.marshal (other m) ≡ p.marshal m)
      × (c.unmarshal bytes (other m) ≡ lift_other (p.unmarshal bytes m))
      × (c.name ≡ p.name)
unfolding proxy_codec
proxy_codec-transparent marshal unmarshal bytes dst m =
    ((frame (record { payload = bytes }), refl, refl), refl, refl, refl)

-- ===== src/Web/Client.antt =====
-- The generated client stubs: example/boot/grpc-web/api/gen/v1/greeter_grpc_web_pb.js.
pub mod Calls
use Prim.Native.String.{◌++◌}
use mathlib.Core.Option
use rk_grpc.Prelude.{ℕ, String, Option, none, some, List, [], ◌∷◌, str_eq, if◌then◌else◌}
use rk_grpc.Web.Jspb.{Jspb}
use rk_grpc.Web.Request
use rk_grpc.Web.Response
use rk_grpc.Web.GrpcWeb.{GrpcWeb, MethodDescriptor, TextObject, Server, Settled, unary}

-- `o.k = v`
abbrev pub set_text : String → String → TextObject → TextObject
set_text k v [] = (k, v) ∷ []
set_text k v ((j, w) ∷ o) = if str_eq j k then (k, v) ∷ o else (j, w) ∷ set_text k v o

-- `o || {}`, for an object that may be null.
abbrev pub or_empty : Option TextObject → TextObject
or_empty none = []
or_empty (some o) = o

module _ (J : Jspb) where
  -- The response is decoded with the given fuel.
  unfoldable pub method_descriptor_greeter_greeter : ℕ → MethodDescriptor J
  method_descriptor_greeter_greeter fuel = record {
    name = "/api.v1.Greeter/Greeter";
    method_type = unary;
    serialize = Request.serialize_binary J;
    deserialize = Response.deserialize_binary J fuel;
  }

module _ (J : Jspb) (G : GrpcWeb J) where
  pub record GreeterClient : Type 0 where
    pub client : G.Base
    pub hostname : String

  pub record GreeterPromiseClient : Type 0 where
    pub client : G.Base
    pub hostname : String

  -- `new GreeterClient(hostname, credentials, options)`: the credentials are not read, and the
  -- format is set on the options, on a fresh object if they are null. The second result is the
  -- caller's options object as the constructor leaves it.
  unfoldable pub new_greeter_client {ℓ} :
      {C : Type ℓ} → String → Option C → Option TextObject → GreeterClient × Option TextObject
  new_greeter_client hostname credentials options =
      let options' = set_text "format" "text" (or_empty options) in
      let mine : GreeterClient = record { client = G.new_base options'; hostname = hostname } in
      (mine, Option.map (set_text "format" "text") options)

  unfoldable pub new_greeter_promise_client {ℓ} :
      {C : Type ℓ}
      → String
      → Option C
      → Option TextObject
      → GreeterPromiseClient × Option TextObject
  new_greeter_promise_client hostname credentials options =
      let options' = set_text "format" "text" (or_empty options) in
      let mine : GreeterPromiseClient = record {
        client = G.new_base options';
        hostname = hostname;
      } in
      (mine, Option.map (set_text "format" "text") options)

  -- `GreeterClient.prototype.greeter`; the result is what the callback is given.
  unfoldable pub greeter :
      ℕ
      → GreeterClient
      → J.Message
      → Option TextObject
      → Server J G.Error
      → Option G.Error × Option J.Message
  greeter fuel c request metadata server =
      G.rpc_call c.client (c.hostname ++ "/api.v1.Greeter/Greeter") request (or_empty metadata)
        (method_descriptor_greeter_greeter J fuel) server

  -- `GreeterPromiseClient.prototype.greeter`
  unfoldable pub greeter_promise :
      ℕ
      → GreeterPromiseClient
      → J.Message
      → Option TextObject
      → Server J G.Error
      → Settled J G.Error
  greeter_promise fuel c request metadata server =
      G.unary_call c.client (c.hostname ++ "/api.v1.Greeter/Greeter") request (or_empty metadata)
        (method_descriptor_greeter_greeter J fuel) server

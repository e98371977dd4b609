-- ===== src/Web/Client/Calls.antt =====
-- What the two stubs of example/boot/grpc-web/api/gen/v1/greeter_grpc_web_pb.js hand to their
-- callers, for each way in which the server may answer.
use Prim.Native.String.{◌++◌}
use rk_grpc.Prelude.{String, ℕ, ◌≡◌, Option, none, some, ◌⊎◌, inl, inr}
use rk_grpc.Web.Jspb.{Jspb, returned}
use rk_grpc.Web.Request
use rk_grpc.Web.Response
use rk_grpc.Web.GrpcWeb.{
  GrpcWeb, CallLaws, TextObject, Server, Settled, failed, replied, rejected, resolved,
}
use rk_grpc.Web.Client.{
  GreeterClient, GreeterPromiseClient, greeter, greeter_promise, or_empty,
  method_descriptor_greeter_greeter,
}

-- The URL that a stub calls.
abbrev pub endpoint : String → String
endpoint hostname = hostname ++ "/api.v1.Greeter/Greeter"

-- The arguments of a callback that stand for a settled promise.
abbrev pub callback_arguments : {J : Jspb} {E : Type 0} → Settled J E → Option E × Option J.Message
callback_arguments (rejected e) = (some e, none)
callback_arguments (resolved m) = (none, some m)

module _ (J : Jspb) (G : GrpcWeb J) (L : CallLaws J G) (fuel : ℕ) where
  pub greeter_failed :
      (c : GreeterClient J G) (req : J.Message) (md : Option TextObject) (server : Server J G.Error)
      (e : G.Error)
      → server (endpoint c.hostname) (or_empty md) (Request.serialize_binary J req) ≡ failed e
      → greeter J G fuel c req md server ≡ (some e, none)
  unfolding greeter method_descriptor_greeter_greeter
  greeter_failed c req md server e h = L.rpc_failed _ _ _ _ _ _ _ h

  pub greeter_replied :
      (c : GreeterClient J G) (req : J.Message) (md : Option TextObject) (server : Server J G.Error)
      (bytes : J.Bytes) (m : J.Message)
      → server (endpoint c.hostname) (or_empty md) (Request.serialize_binary J req) ≡ replied bytes
      → Response.deserialize_binary J fuel bytes ≡ returned m
      → greeter J G fuel c req md server ≡ (none, some m)
  unfolding greeter method_descriptor_greeter_greeter
  greeter_replied c req md server bytes m h d = L.rpc_replied _ _ _ _ _ _ _ _ h d

  greeter_promise_failed :
      (p : GreeterPromiseClient J G) (req : J.Message) (md : Option TextObject)
      (server : Server J G.Error) (e : G.Error)
      → server (endpoint p.hostname) (or_empty md) (Request.serialize_binary J req) ≡ failed e
      → greeter_promise J G fuel p req md server ≡ rejected e
  unfolding greeter_promise method_descriptor_greeter_greeter
  greeter_promise_failed p req md server e h = L.unary_failed _ _ _ _ _ _ _ h

  greeter_promise_replied :
      (p : GreeterPromiseClient J G) (req : J.Message) (md : Option TextObject)
      (server : Server J G.Error) (bytes : J.Bytes) (m : J.Message)
      → server (endpoint p.hostname) (or_empty md) (Request.serialize_binary J req) ≡ replied bytes
      → Response.deserialize_binary J fuel bytes ≡ returned m
      → greeter_promise J G fuel p req md server ≡ resolved m
  unfolding greeter_promise method_descriptor_greeter_greeter
  greeter_promise_replied p req md server bytes m h d = L.unary_replied _ _ _ _ _ _ _ _ h d

  -- Two clients on one host, the one with callbacks and the one with promises, give their callers
  -- the same outcome of the same call, where the server fails the call or replies with a buffer
  -- that decodes: the callback gets what the promise is settled to, and null for the other.
  greeter-greeter_promise :
      (c : GreeterClient J G) (p : GreeterPromiseClient J G) (req : J.Message)
      (md : Option TextObject) (server : Server J G.Error)
      → p.hostname ≡ c.hostname
      → ((e : G.Error) × (server
              (endpoint c.hostname)
              (or_empty md)
              (Request.serialize_binary J req)
            ≡ failed e))
        ⊎ ((bytes : J.Bytes) × (m : J.Message) × (server
                (endpoint c.hostname)
                (or_empty md)
                (Request.serialize_binary J req)
              ≡ replied bytes)
            × (Response.deserialize_binary J fuel bytes ≡ returned m))
      → greeter J G fuel c req md server
        ≡ callback_arguments (greeter_promise J G fuel p req md server)
  greeter-greeter_promise c p req md server same (inl (e, h)) =
      rw (greeter_failed c req md server e h, greeter_promise_failed p req md server e (rw same h))
  greeter-greeter_promise c p req md server same (inr (bytes, m, h, d)) = rw (
    greeter_replied c req md server bytes m h d,
    greeter_promise_replied p req md server bytes m (rw same h) d,
  )

-- ===== src/Web/GrpcWeb.antt =====
-- What example/boot/grpc-web/api/gen/v1/greeter_grpc_web_pb.js uses of the library grpc-web: the
-- client base with its two ways of making a call, as a record of parameters. The network is a
-- parameter of each call: what the server at a URL answers to metadata and a request buffer.
use rk_grpc.Prelude.{String, ◌≡◌, Option, none, some, List}
use rk_grpc.Web.Jspb.{Jspb, Run, returned}

pub data MethodType : Type 0 where
  unary server_streaming bidi_streaming : MethodType

-- Objects of texts: call metadata, and the options of a client.
abbrev pub TextObject : Type 0
TextObject = List (String × String)

-- `new grpc.web.MethodDescriptor(name, type, request, response, serialize, deserialize)`
pub record MethodDescriptor (J : Jspb) : Type 0 where
  pub name : String
  pub method_type : MethodType
  pub serialize : J.Message → J.Bytes
  pub deserialize : J.Bytes → Run J.Message

pub data Reply (J : Jspb) (E : Type 0) : Type 0 where
  failed : E → Reply J E
  replied : J.Bytes → Reply J E

abbrev pub Server : (J : Jspb) → Type 0 → Type 0
Server J E = String → TextObject → J.Bytes → Reply J E

-- A settled promise.
pub data Settled (J : Jspb) (E : Type 0) : Type 0 where
  rejected : E → Settled J E
  resolved : J.Message → Settled J E

pub record GrpcWeb (J : Jspb) : Type 1 where
  pub Base : Type 0
  pub Error : Type 0
  pub new_base : TextObject → Base
  -- The two arguments that the callback of `rpcCall` is given.
  pub rpc_call :
      Base
      → String
      → J.Message
      → TextObject
      → MethodDescriptor J
      → Server J Error
      → Option Error × Option J.Message
  pub unary_call :
      Base → String → J.Message → TextObject → MethodDescriptor J → Server J Error → Settled J Error

-- The documented behaviour: the server gets the serialised request, and the caller gets the decoded
-- response or the error, the other of the two being null.
pub record CallLaws (J : Jspb) (G : GrpcWeb J) : Type 0 where
  pub rpc_failed :
      (b : G.Base) (url : String) (req : J.Message) (md : TextObject) (d : MethodDescriptor J)
      (server : Server J G.Error) (e : G.Error)
      → server url md (d.serialize req) ≡ failed e
      → G.rpc_call b url req md d server ≡ (some e, none)
  pub rpc_replied :
      (b : G.Base) (url : String) (req : J.Message) (md : TextObject) (d : MethodDescriptor J)
      (server : Server J G.Error) (bytes : J.Bytes) (m : J.Message)
      → server url md (d.serialize req) ≡ replied bytes
      → d.deserialize bytes ≡ returned m
      → G.rpc_call b url req md d server ≡ (none, some m)
  pub unary_failed :
      (b : G.Base) (url : String) (req : J.Message) (md : TextObject) (d : MethodDescriptor J)
      (server : Server J G.Error) (e : G.Error)
      → server url md (d.serialize req) ≡ failed e
      → G.unary_call b url req md d server ≡ rejected e
  pub unary_replied :
      (b : G.Base) (url : String) (req : J.Message) (md : TextObject) (d : MethodDescriptor J)
      (server : Server J G.Error) (bytes : J.Bytes) (m : J.Message)
      → server url md (d.serialize req) ≡ replied bytes
      → d.deserialize bytes ≡ returned m
      → G.unary_call b url req md d server ≡ resolved m

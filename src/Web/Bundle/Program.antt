-- ===== src/Web/Bundle/Program.antt =====
-- The table of example/boot/grpc-web/bundle.js: the top-level code of the three modules of the
-- program, with the members that the two libraries export as parameters.
use rk_grpc.Prelude.{String, List, [], ◌∷◌, ◌++◌}
use rk_grpc.Web.Bundle.{
  Statement, require, create, define, use_member, debug_only, extend_exports, export_object,
  export_members, Module, Table,
}

-- A client stub's constructor, in the namespace, and its prototype.
abbrev stub_constructor : String → String → List Statement
stub_constructor name prototype = create name ∷ define "proto.api.v1" name ∷ create prototype ∷ []

-- Module 1: the client stubs. Their namespace is the exports of the messages, which they extend
-- and export.
unfoldable pub stub_module : Module
stub_module = record {
  body =
      create "grpc"
        ∷ require "grpc.web" "grpc-web"
        ∷ define "grpc" "web"
        ∷ create "proto"
        ∷ create "proto.api"
        ∷ define "proto" "api"
        ∷ require "proto.api.v1" "./greeter_pb.js"
        ∷ define "proto.api" "v1"
        ∷ stub_constructor "GreeterClient" "GreeterClient.prototype"
      ++ stub_constructor "GreeterPromiseClient" "GreeterPromiseClient.prototype"
      ++ use_member "grpc.web" "MethodDescriptor"
        ∷ use_member "grpc.web" "MethodType"
        ∷ create "methodDescriptor_Greeter_Greeter"
        ∷ define "GreeterClient.prototype" "greeter"
        ∷ define "GreeterPromiseClient.prototype" "greeter"
        ∷ export_object "proto.api.v1"
        ∷ [];
  deps = ("./greeter_pb.js", 2) ∷ ("grpc-web", 5) ∷ [];
}

-- The methods of a message's constructor and prototype, in the order in which they are assigned.
-- `toObject` is there unless `jspb.Message.GENERATE_TO_OBJECT` is off, which is for compiled code.
abbrev message_class : String → String → List Statement
message_class name prototype =
    define prototype "toObject"
    ∷ define name "toObject"
    ∷ define name "deserializeBinary"
    ∷ define name "deserializeBinaryFromReader"
    ∷ define prototype "serializeBinary"
    ∷ define name "serializeBinaryToWriter"
    ∷ define prototype "getMessage"
    ∷ define prototype "setMessage"
    ∷ []

-- The methods of the second message.
abbrev greeter_response_class : List Statement
greeter_response_class = message_class "GreeterResponse" "GreeterResponse.prototype"

-- A message's constructor, in the namespace, and the prototype that `goog.inherits` gives it, whose
-- constructor of the library is `jspb.Message`. `goog` is `jspb`.
abbrev message_constructor : String → String → List Statement
message_constructor name prototype =
    create name
    ∷ define "proto.api.v1" name
    ∷ use_member "jspb" "inherits"
    ∷ use_member "jspb" "Message"
    ∷ create prototype
    ∷ define prototype "constructor"
    ∷ debug_only "jspb"
    ∷ []

-- Module 2: the messages. `goog.exportSymbol` makes the namespace with the two names in it.
unfoldable pub messages_module : Module
messages_module = record {
  body =
      require "jspb" "google-protobuf"
        ∷ use_member "jspb" "exportSymbol"
        ∷ create "proto.api.v1"
        ∷ define "proto.api.v1" "GreeterRequest"
        ∷ define "proto.api.v1" "GreeterResponse"
        ∷ message_constructor "GreeterRequest" "GreeterRequest.prototype"
      ++ message_constructor "GreeterResponse" "GreeterResponse.prototype"
      ++ message_class "GreeterRequest" "GreeterRequest.prototype"
      ++ greeter_response_class
      ++ use_member "jspb" "object.extend" ∷ extend_exports "proto.api.v1" ∷ [];
  deps = ("google-protobuf", 4) ∷ [];
}

-- Module 3: the page script, the entry of the bundle. What it sets `window.onload` to is in
-- Web.Page.
unfoldable pub page_module : Module
page_module = record {
  body =
      require "{GreeterRequest, Resp}" "./api/gen/v1/greeter_pb"
      ∷ require "{GreeterClient}" "./api/gen/v1/greeter_grpc_web_pb"
      ∷ [];
  deps = ("./api/gen/v1/greeter_grpc_web_pb", 1) ∷ ("./api/gen/v1/greeter_pb", 2) ∷ [];
}

-- The table of the bundle, with the members that the two libraries export.
unfoldable pub bundle : List String → List String → Table
unfolding stub_module messages_module page_module
bundle protobuf grpc_web =
    (1, stub_module)
    ∷ (2, messages_module)
    ∷ (3, page_module)
    ∷ (4, record { body = export_members protobuf ∷ []; deps = [] })
    ∷ (5, record { body = export_members grpc_web ∷ []; deps = [] })
    ∷ []

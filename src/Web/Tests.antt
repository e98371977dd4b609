-- ===== src/Web/Tests.antt =====
-- The theorems on the browser side at concrete inputs.
use rk_grpc.Prelude.{ℕ, String, ◌≡◌, refl, ◌≢◌, some, List, [], ◌∷◌, arith, str_eq, if◌then◌else◌}
use rk_grpc.Web.Jspb.{returned, out_of_fuel, WireField, text, end_group, other}
use rk_grpc.Web.Plain.{jspb, accessors, wire, progress, grpc_web, calls}
use rk_grpc.Web.Request
use rk_grpc.Web.Request.Decode.{last_text}
use rk_grpc.Web.Request.Laws.{
  deserialize_binary-last_text, deserialize_binary-serialize_binary,
  deserialize_binary-ne-out_of_fuel,
}
use rk_grpc.Web.Response
use rk_grpc.Web.Response.Same.{deserialize_binary-Request}
use rk_grpc.Web.GrpcWeb.{failed, replied, Server}
use rk_grpc.Web.Page.{Browser, Document, onload, element_of}
use rk_grpc.Web.Page.Shows.{onload-answer, onload-failed}
use rk_grpc.Web.Bundle
use rk_grpc.Web.Bundle.Program.{stub_module, messages_module, page_module, bundle}
use rk_grpc.Web.Bundle.{
  Table, State, Ended, ended, require, define, load, run_factory, instantiate, exports_of, thrown,
  has_member, members, set_exports, add_members, with_members, any_eq, empty_state, lookup_id,
}
use rk_grpc.Web.Bundle.Once.{Holds, EachOnce, load-EachOnce}
use rk_grpc.Web.Bundle.Ends.{load-ne-out_of_fuel}
use rk_grpc.Web.Bundle.Shared.{bundle-shares_exports, exported, shared_names}

abbrev buffer : List WireField
buffer = text 1 "a" ∷ other 7 ∷ text 1 "b" ∷ end_group 3 ∷ text 1 "c" ∷ []

buffer_reads_b : ◌≡◌ {A = String} (last_text buffer "") "b"
buffer_reads_b = refl

deserialize_binary-last_text_example :
    (msg : ℕ → String) × (Request.deserialize_binary jspb 9 buffer ≡ returned msg)
    × (Request.get_message jspb msg ≡ last_text buffer "")
unfolding wire
deserialize_binary-last_text_example =
    deserialize_binary-last_text jspb accessors wire 9 buffer buffer (omega arith) (omega arith)
      refl

abbrev hello : ℕ → String
hello n = "hello"

deserialize_binary-serialize_binary_example :
    (msg : ℕ → String) × (Request.deserialize_binary jspb 2 (Request.serialize_binary jspb hello)
      ≡ returned msg)
    × (Request.get_message jspb msg ≡ Request.get_message jspb hello)
deserialize_binary-serialize_binary_example =
    deserialize_binary-serialize_binary jspb accessors wire 2 hello (omega arith)

deserialize_binary-ne-out_of_fuel_example : Request.deserialize_binary jspb 6 buffer ≢ out_of_fuel
unfolding progress
deserialize_binary-ne-out_of_fuel_example =
    deserialize_binary-ne-out_of_fuel jspb progress 6 buffer (omega arith)

abbrev down : Server jspb String
down url md bytes = failed "unavailable"

-- A server that answers every request with "hi".
abbrev response : ℕ → String
response n = "hi"

abbrev hi : Server jspb String
hi url md bytes = replied (Response.serialize_binary jspb response)

-- A browser that keeps the text.
abbrev browser : Browser
browser = record { Contents = String; parse_html = λ tag html. html }

abbrev page : Document browser
page =
    record { id = "title"; tag = "h1"; contents = "gRPC Web Test" }
    ∷ record { id = "res"; tag = "p"; contents = "" }
    ∷ []

onload-answer_example :
    (doc : Document browser) × (onload browser jspb grpc_web (λ e. e) 2 hi page ≡ some doc)
    × ((j : String)
        → element_of j doc ≡ (
            if str_eq "res" j
            then some (record { id = "res"; tag = "p"; contents = "hi" })
            else element_of j page))
unfolding Response.get_message
onload-answer_example =
    onload-answer browser jspb accessors wire grpc_web calls (λ e. e) 2 hi (λ s. "hi") page
      (record { id = "res"; tag = "p"; contents = "" }) (omega arith) refl
      (λ bytes req h. (response, refl, refl))

onload-failed_example :
    (doc : Document browser) × (onload browser jspb grpc_web (λ e. e) 2 down page ≡ some doc)
    × ((j : String)
        → element_of j doc ≡ (
            if str_eq "res" j
            then some (record { id = "res"; tag = "p"; contents = "unavailable" })
            else element_of j page))
onload-failed_example =
    onload-failed browser jspb accessors wire grpc_web calls (λ e. e) 2 down page
      (record { id = "res"; tag = "p"; contents = "" }) "unavailable" refl (λ bytes. refl)

deserialize_binary-Request_example :
    Response.deserialize_binary jspb 6 buffer ≡ Request.deserialize_binary jspb 6 buffer
deserialize_binary-Request_example = deserialize_binary-Request jspb 6 buffer

-- Two modules that require each other.
abbrev cycle : Table
cycle =
    (1, record { body = require "b" "./b" ∷ define "b" "x" ∷ []; deps = ("./b", 2) ∷ [] })
    ∷ (2, record { body = require "a" "./a" ∷ define "a" "y" ∷ []; deps = ("./a", 1) ∷ [] })
    ∷ []

cycle_returns :
    load cycle 3 1 empty_state
    ≡ ended 0 (record {
      store = ("y" ∷ []) ∷ ("x" ∷ []) ∷ [];
      instances = (2, 1) ∷ (1, 0) ∷ [];
      evaluated = 2 ∷ 1 ∷ [];
    })
unfolding load run_factory instantiate exports_of add_members with_members any_eq
cycle_returns = refl

load-EachOnce_example :
    Holds (λ st. EachOnce st.evaluated st.instances) (load (bundle [] []) 6 3 empty_state)
load-EachOnce_example = load-EachOnce (bundle [] []) 6 3

load-ne-out_of_fuel_example : load cycle 3 1 empty_state ≢ Bundle.out_of_fuel
load-ne-out_of_fuel_example = load-ne-out_of_fuel cycle 3 1 (omega arith)

-- The libraries with what is used of them, and one thing more.
abbrev protobuf : List String
protobuf = "Message" ∷ "exportSymbol" ∷ "inherits" ∷ "object.extend" ∷ "Map" ∷ []

abbrev grpc_web_members : List String
grpc_web_members = "MethodDescriptor" ∷ "MethodType" ∷ "RpcError" ∷ []

bundle-shares_exports_example :
    (page : ℕ) × (st : State) × (load (bundle protobuf grpc_web_members) 3 3 empty_state
      ≡ ended page st)
    × (st.evaluated ≡ 5 ∷ 1 ∷ 4 ∷ 2 ∷ 3 ∷ [])
    × (lookup_id 1 st.instances ≡ lookup_id 2 st.instances)
    × (exported 1 st ≡ some shared_names)
    × (exported 4 st ≡ some protobuf)
    × (exported 5 st ≡ some grpc_web_members)
unfolding any_eq
bundle-shares_exports_example =
    bundle-shares_exports protobuf grpc_web_members 0 (refl, refl, refl, refl, refl, refl, refl)

-- Without what is used of it, google-protobuf makes the load throw.
missing_library_throws :
    (st : State) × (load (bundle [] grpc_web_members) 3 3 empty_state ≡ thrown st)
unfolding load bundle stub_module messages_module page_module run_factory has_member any_eq members
    instantiate set_exports exports_of
missing_library_throws = (_, refl)

-- ===== src/Web/Page.antt =====
-- The page script: example/boot/grpc-web/client.js, which test.html loads through bundle.js.
pub mod Shows
use rk_grpc.Prelude.{ℕ, String, Option, none, some, List, [], ◌∷◌, str_eq, if◌then◌else◌}
use mathlib.Core.Option
use rk_grpc.Web.Jspb.{Jspb}
use rk_grpc.Web.Request
use rk_grpc.Web.Response
use rk_grpc.Web.GrpcWeb.{GrpcWeb, Server}
use rk_grpc.Web.Client.{new_greeter_client, greeter}

-- What the browser makes of the text that innerHTML is set to, in an element of a tag.
pub record Browser : Type 1 where
  pub Contents : Type 0
  pub parse_html : String → String → Contents

pub record Element (B : Browser) : Type 0 where
  pub id : String
  pub tag : String
  pub contents : B.Contents

-- The elements that have an id, in the document's order, where none of them stands within another,
-- as in test.html. What is parsed into an element is in its contents; what scripts in them do
-- afterwards is not followed.
abbrev pub Document : Browser → Type 0
Document B = List (Element B)

abbrev pub element_of : {B : Browser} → String → Document B → Option (Element B)
element_of id [] = none
element_of id (e ∷ es) = if str_eq e.id id then some e else element_of id es

-- `document.getElementById(id).innerHTML = html`; `none` is the TypeError of a missing element.
unfoldable pub set_inner_html : (B : Browser) → String → String → Document B → Option (Document B)
set_inner_html B id html [] = none
set_inner_html B id html (e ∷ es) =
    if str_eq e.id id
    then some (record e { contents = B.parse_html e.tag html } ∷ es)
    else Option.map (λ rest. e ∷ rest) (set_inner_html B id html es)

module _ (B : Browser) (J : Jspb) (G : GrpcWeb J) (error_text : G.Error → String) where
  -- The callback. `none` is a TypeError: no such element, or no response to read.
  unfoldable pub on_response : Option G.Error × Option J.Message → Document B → Option (Document B)
  unfolding Response.get_message
  on_response (some err, response) doc = set_inner_html B "res" (error_text err) doc
  on_response (none, some response) doc =
      set_inner_html B "res" (Response.get_message J response) doc
  on_response (none, none) doc = none

  -- `window.onload`, with the document as it is when the call has been answered.
  unfoldable pub onload : ℕ → Server J G.Error → Document B → Option (Document B)
  unfolding on_response
  onload fuel server doc =
      let (service, options) =
        new_greeter_client J G {C = Unit {0}} "http://localhost:8080" none none in
      let req = Request.set_message J (Request.new_greeter_request J none) "grpc web request" in
      on_response (greeter J G fuel service req (some []) server) doc

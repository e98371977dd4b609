-- ===== src/Web/Page/Shows.antt =====
-- What the page of the gRPC-Web example shows (example/boot/grpc-web/client.js), from the click of
-- `onload` through the stubs, the wire format and the server, back to the document.
use rk_grpc.Prelude.{
  ℕ, sym, ◌<◌, String, ◌≡◌, none, some, [], ◌∷◌, ◌∙◌, arith, Bool-cases, inl, inr, str_eq, eq_iff,
  if◌then◌else◌,
}
use rk_grpc.Web.Jspb.{Jspb, returned, AccessorLaws, WireLaws}
use rk_grpc.Web.Request
use rk_grpc.Web.Request.Laws.{deserialize_binary-serialize_binary}
use rk_grpc.Web.Response
use rk_grpc.Web.Response.Same.{
  deserialize_binary-Request, serialize_binary-Request, get_message-Request,
}
use rk_grpc.Web.GrpcWeb.{GrpcWeb, CallLaws, Server, failed, replied}
use rk_grpc.Web.Client.{new_greeter_client}
use rk_grpc.Web.Client.Calls.{greeter_failed, greeter_replied}
use rk_grpc.Web.Page.{Browser, Element, Document, set_inner_html, element_of, on_response, onload}

-- An element that is there takes what the browser parses of the text, and no other element changes.
pub set_inner_html_lem :
    (B : Browser) (id html : String) (el : Element B) (doc : Document B)
    → element_of id doc ≡ some el
    → (doc' : Document B) × (set_inner_html B id html doc ≡ some doc')
      × ((j : String)
          → element_of j doc' ≡ (
              if str_eq id j
              then some (record el { contents = B.parse_html el.tag html })
              else element_of j doc))
unfolding set_inner_html
set_inner_html_lem B id html el [] h = cc
set_inner_html_lem B id html el (e ∷ es) h = elim (Bool-cases (str_eq e.id id)) [
  | inl here ↦
      let same : e ≡ el = ground arith in
      (
        record e { contents = B.parse_html e.tag html } ∷ es,
        rw here,
        λ j. rw (sym same) (ground (arith, eq_iff e.id id, eq_iff e.id j, eq_iff id j)),
      )
  | inr later ↦
      let (es', sets, reads) = set_inner_html_lem B id html el es (rw later at h) in
      (
        e ∷ es',
        rw (later, sets),
        λ j. ground (arith, eq_iff e.id id, eq_iff e.id j, eq_iff id j, reads j),
      )
]

abbrev pub greeter_url : String
greeter_url = "http://localhost:8080/api.v1.Greeter/Greeter"

module _ (B : Browser) (J : Jspb) (A : AccessorLaws J) (W : WireLaws J) (G : GrpcWeb J)
    (L : CallLaws J G) (error_text : G.Error → String) (fuel : ℕ) (server : Server J G.Error) where
  -- The request buffer of the page decodes to the text that the script sets.
  sent_request :
      1 < fuel
      → (req : J.Message) × (Request.deserialize_binary J fuel (
            Request.serialize_binary J
              (Request.set_message J (Request.new_greeter_request J none) "grpc web request"))
          ≡ returned req)
        × (Request.get_message J req ≡ "grpc web request")
  unfolding Request.set_message Request.get_message
  sent_request h =
      let (req, decodes, same) =
        deserialize_binary-serialize_binary J A W fuel
          (Request.set_message J (Request.new_greeter_request J none) "grpc web request") h in
      (req, decodes, same ∙ A.get_set _ 1 "grpc web request")

  -- The decoded response carries the text of the serialised one.
  received_response :
      (resp : J.Message)
      → 1 < fuel
      → (m : J.Message) × (Response.deserialize_binary J fuel (Response.serialize_binary J resp)
          ≡ returned m)
        × (Response.get_message J m ≡ Response.get_message J resp)
  received_response resp h =
      let (m, decodes, same) = deserialize_binary-serialize_binary J A W fuel resp h in
      (
        m,
        rw (deserialize_binary-Request, serialize_binary-Request) decodes,
        rw (get_message-Request J m, get_message-Request J resp) same,
      )

  -- Where the document has an element `res`, and the server answers every buffer that decodes, at
  -- the greeter's URL, with a response whose text is a function of the request's text, that
  -- element gets the contents that the browser parses of the answer to "grpc web request", and none
  -- of the document's other elements with an id changes. The fuel is for two rounds of decoding.
  pub onload-answer :
      (answer : String → String) (doc : Document B) (el : Element B)
      → 1 < fuel
      → element_of "res" doc ≡ some el
      → ((bytes : J.Bytes) (req : J.Message)
          → Request.deserialize_binary J fuel bytes ≡ returned req
          → (resp : J.Message) × (server greeter_url [] bytes
              ≡ replied (Response.serialize_binary J resp))
            × (Response.get_message J resp ≡ answer (Request.get_message J req)))
      → (doc' : Document B) × (onload B J G error_text fuel server doc ≡ some doc')
        × ((j : String)
            → element_of j doc' ≡ (
                if str_eq "res" j
                then some (record el { contents = B.parse_html el.tag (answer "grpc web request") })
                else element_of j doc))
  unfolding onload new_greeter_client
  onload-answer answer doc el h there serves =
      let (req, sent, asked) = sent_request h in
      let (resp, serve, answered) = serves _ req sent in
      let (m, received, same) = received_response resp h in
      let (doc', sets, reads) =
        set_inner_html_lem B "res" (answer "grpc web request") el doc there in
      (
        doc',
        rw
            (
              greeter_replied J G L fuel _ _ (some []) server _ m serve received,
              on_response,
              same,
              answered,
              asked,
            )
            sets,
        reads,
      )

  -- Where the document has an element `res` and the server fails every call at the greeter's URL
  -- with an error, that element gets the contents that the browser parses of the error's text, and
  -- none of the document's other elements with an id changes.
  pub onload-failed :
      (doc : Document B) (el : Element B) (e : G.Error)
      → element_of "res" doc ≡ some el
      → ((bytes : J.Bytes) → server greeter_url [] bytes ≡ failed e)
      → (doc' : Document B) × (onload B J G error_text fuel server doc ≡ some doc')
        × ((j : String)
            → element_of j doc' ≡ (
                if str_eq "res" j
                then some (record el { contents = B.parse_html el.tag (error_text e) })
                else element_of j doc))
  unfolding onload new_greeter_client
  onload-failed doc el e there fails =
      let (doc', sets, reads) = set_inner_html_lem B "res" (error_text e) el doc there in
      (
        doc',
        rw (greeter_failed J G L fuel _ _ (some []) server e (fails _), on_response) sets,
        reads,
      )

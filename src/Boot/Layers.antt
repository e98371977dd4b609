-- ===== src/Boot/Layers.antt =====
-- The interceptors around the gateway's HttpMux, middleware/cors, middleware/secure and
-- middleware/csrf, as Bootstrap of boot/grpc_entry.go puts them around it (Boot.Entry has the order).
-- What the option sets of rk-entry decide is a parameter. A handler is what it makes of the response.
pub mod Csrf
mod Tests
use rk_grpc.Prelude.{ℕ, String, Bool, Option, none, some, List, [], ◌∷◌, ◌++◌, if◌then◌else◌, ◌||◌}
use rk_grpc.Boot.HttpHeader.{Header, add_value, set_value}
use rk_grpc.Boot.Gateway.{ResponseWriter, write_header}
use rk_grpc.Boot.Entry.{
  Layer, cors_interceptor, secure_interceptor, csrf_interceptor, h2c_handler, grpc_web_server,
  GrpcEntry,
}
use rk_grpc.Boot.Entry.Statements.{http_handler}

-- What is used of the libraries: textproto's canonical names, the code and the JSON text of an error
-- response, what http.SetCookie writes of a cookie, if it is valid, and the names of rk-entry.
pub record LayerLibraries : Type 1 where
  pub Rest : Type 0
  pub Cookie : Type 0
  pub ErrorResponse : Type 0
  pub canonical : String → String
  pub code : ErrorResponse → ℕ
  pub marshal : ErrorResponse → String
  pub cookie_text : Cookie → Option String
  pub header_vary : String
  pub csrf_token_key : String

-- `http.Request`: its header, and the rest.
pub record ServedRequest (H : LayerLibraries) : Type 0 where
  pub header : Header
  pub rest : H.Rest

abbrev pub HttpHandler : LayerLibraries → Type 0
HttpHandler H = ServedRequest H → ResponseWriter → ResponseWriter

-- `beforeCtx.Output` of the option set of middleware/cors.
pub record CorsOutput : Type 0 where
  pub headers_to_return : List (String × String)
  pub header_vary : List String
  pub abort : Bool

-- `beforeCtx` of the option set of middleware/csrf: its Output, and the Token of its Input.
pub record CsrfContext (H : LayerLibraries) : Type 0 where
  pub err_resp : Option H.ErrorResponse
  pub vary_headers : List String
  pub cookie : Option H.Cookie
  pub token : String

-- What is around HttpMux: the option sets, h2c.NewHandler of golang.org/x/net, and the server of
-- grpcweb, with its tests of a request.
pub record Surroundings (H : LayerLibraries) : Type 0 where
  pub cors : ServedRequest H → CorsOutput
  pub secure : ServedRequest H → List (String × String)
  pub csrf : ServedRequest H → CsrfContext H
  pub h2c : HttpHandler H → HttpHandler H
  pub is_grpc_web_request : ServedRequest H → Bool
  pub is_acceptable_grpc_cors_request : ServedRequest H → Bool
  pub is_grpc_web_socket_request : ServedRequest H → Bool
  pub grpc_web : HttpHandler H

module _ (H : LayerLibraries) where
  -- `for k, v := range … { w.Header().Set(k, v) }`
  unfoldable pub set_all : List (String × String) → Header → Header
  unfolding set_value
  set_all [] h = h
  set_all ((k, v) ∷ kvs) h = set_all kvs (set_value H.canonical k v h)

  -- `for _, v := range … { w.Header().Add(rkmid.HeaderVary, v) }`
  unfoldable pub add_vary : List String → Header → Header
  unfolding add_value
  add_vary [] h = h
  add_vary (v ∷ vs) h = add_vary vs (add_value H.canonical H.header_vary v h)

  unfoldable pub cookie_value : Option H.Cookie → Option String
  cookie_value none = none
  cookie_value (some c) = H.cookie_text c

  -- `if beforeCtx.Output.Cookie != nil { http.SetCookie(w, …) }`
  unfoldable pub set_cookie : Option H.Cookie → Header → Header
  unfolding cookie_value add_value
  set_cookie c h = elim (cookie_value c) [
    | none ↦ h
    | some text ↦ add_value H.canonical "Set-Cookie" text h
  ]

  unfoldable pub intercept_cors : (ServedRequest H → CorsOutput) → HttpHandler H → HttpHandler H
  unfolding set_all add_vary write_header
  intercept_cors before handler req w =
      let out = before req in
      let w' = record w {
        header = add_vary out.header_vary (set_all out.headers_to_return w.header);
      } in
      if out.abort then write_header 204 w' else handler req w'

  unfoldable pub intercept_secure :
      (ServedRequest H → List (String × String)) → HttpHandler H → HttpHandler H
  unfolding set_all
  intercept_secure before handler req w =
      handler req (record w { header = set_all (before req) w.header })

  -- A refusal is written, and the handler is not called.
  unfoldable pub refuse : H.ErrorResponse → ResponseWriter → ResponseWriter
  unfolding write_header
  refuse e w =
      let sent = write_header (H.code e) w in record sent { body = sent.body ++ H.marshal e ∷ [] }

  unfoldable pub intercept_csrf : (ServedRequest H → CsrfContext H) → HttpHandler H → HttpHandler H
  unfolding refuse add_vary set_cookie set_value
  intercept_csrf before handler req w =
      let out = before req in
      elim (out.err_resp) [
        | some e ↦ refuse e w
        | none ↦
            handler
              (record req { header = set_value H.canonical H.csrf_token_key out.token req.header })
              (record w { header = set_cookie out.cookie (add_vary out.vary_headers w.header) })
      ]

  module _ (S : Surroundings H) where
    -- The server of grpcweb answers what is for it; the others fall back to the handler.
    unfoldable pub fall_back : HttpHandler H → HttpHandler H
    fall_back handler req w =
        if S.is_grpc_web_request req
          || S.is_acceptable_grpc_cors_request req
          || S.is_grpc_web_socket_request req
        then S.grpc_web req w
        else handler req w

    unfoldable pub around : Layer → HttpHandler H → HttpHandler H
    unfolding intercept_cors intercept_secure intercept_csrf fall_back
    around cors_interceptor handler = intercept_cors S.cors handler
    around secure_interceptor handler = intercept_secure S.secure handler
    around csrf_interceptor handler = intercept_csrf S.csrf handler
    around h2c_handler handler = S.h2c handler
    around grpc_web_server handler = fall_back handler

    unfoldable pub layered : List Layer → HttpHandler H → HttpHandler H
    unfolding around
    layered [] handler = handler
    layered (l ∷ ls) handler = around l (layered ls handler)

    -- `entry.HttpServer.Handler`, around what HttpMux is.
    unfoldable pub server_handler :
        {Error : Type 0}
        → (String → String → String)
        → GrpcEntry Error
        → HttpHandler H
        → HttpHandler H
    unfolding layered http_handler
    server_handler join entry mux = layered (http_handler join entry) mux

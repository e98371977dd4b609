-- ===== src/Boot/Layers/Csrf.antt =====
-- What middleware/csrf, around the other interceptors of boot/grpc_entry.go and the HttpMux, lets
-- through.
use rk_grpc.Prelude.{
  String, ◌≡◌, refl, Bool, true, false, Option, none, some, List, [], ◌∷◌, ◌++◌, if◌then◌else◌,
  ◌||◌, ◌&&◌, str_eq, sym, subst, eq_iff, arith,
}
use rk_grpc.Middleware.Address.{values_of}
use rk_grpc.Boot.HttpHeader.{Header, set_value}
use rk_grpc.Boot.HttpHeader.Values.{values_of-put_values}
use rk_grpc.Boot.Gateway.{ResponseWriter, write_header}
use rk_grpc.Boot.Entry.{
  Layer, cors_interceptor, secure_interceptor, csrf_interceptor, h2c_handler, grpc_web_server,
  GrpcEntry,
}
use rk_grpc.Boot.Entry.Statements.{http_handler}
use rk_grpc.Boot.Layers.{
  LayerLibraries, ServedRequest, HttpHandler, Surroundings, add_vary, set_all, set_cookie,
  intercept_cors, intercept_secure, refuse, intercept_csrf, fall_back, around, layered,
  server_handler,
}

str_eq_same : (k : String) → str_eq k k ≡ true
str_eq_same k = ground (arith, eq_iff k k)

module _ (H : LayerLibraries) (S : Surroundings H) where
  -- What becomes of a request behind the csrf interceptor: where the entry has cors options and they
  -- decide so, it ends with 204, and else it is the result of HttpMux; with a writer that has sent
  -- and written what it had before, headers apart.
  abbrev pub Reaches :
      Bool → HttpHandler H → ServedRequest H → ResponseWriter → ResponseWriter → Type 0
  Reaches has_cors mux req w end =
      (w' : ResponseWriter) × (w'.sent ≡ w.sent)
      × (w'.body ≡ w.body)
      × (end ≡ (if has_cors && (S.cors req).abort then write_header 204 w' else mux req w'))

  cors-Reaches :
      (mux : HttpHandler H) (req : ServedRequest H) (w : ResponseWriter) (has_cors : Bool)
      → Reaches has_cors mux req w
          (layered H S (if has_cors then cors_interceptor ∷ [] else []) mux req w)
  unfolding layered around intercept_cors
  cors-Reaches mux req w false = (w, refl, refl, refl)
  cors-Reaches mux req w true = (_, refl, refl, refl)

  inner-Reaches :
      (mux : HttpHandler H) (req : ServedRequest H) (w : ResponseWriter)
      (has_secure has_cors : Bool)
      → Reaches has_cors mux req w (
          layered H S
            ((if has_secure then secure_interceptor ∷ [] else [])
              ++ (if has_cors then cors_interceptor ∷ [] else []))
            mux
            req
            w)
  unfolding layered around intercept_secure
  inner-Reaches mux req w false has_cors = cors-Reaches mux req w has_cors
  inner-Reaches mux req w true has_cors =
      cors-Reaches mux req (record w { header = set_all H (S.secure req) w.header }) has_cors

  -- The request is not for the server of grpcweb, or, without one, is passed on by h2c.
  abbrev pub IsPlain : Bool → ServedRequest H → Type 0
  IsPlain true req =
      (S.is_grpc_web_request req
        || S.is_acceptable_grpc_cors_request req
        || S.is_grpc_web_socket_request req)
      ≡ false
  IsPlain false req = (h : HttpHandler H) (w : ResponseWriter) → S.h2c h req w ≡ h req w

  outer-plain :
      (has_web : Bool) (ks ls ms : List Layer) (mux : HttpHandler H) (req : ServedRequest H)
      (w : ResponseWriter)
      → IsPlain has_web req
      → layered H S
          ((if has_web then grpc_web_server ∷ [] else h2c_handler ∷ []) ++ ks ++ ls ++ ms)
          mux
          req
          w
        ≡ layered H S (ks ++ ls ++ ms) mux req w
  unfolding layered around fall_back
  outer-plain true ks ls ms mux req w h = rw h refl
  outer-plain false ks ls ms mux req w h = h (layered H S (ks ++ ls ++ ms) mux) w

  -- What becomes of a request at the csrf interceptor, by what its option set has decided.
  abbrev pub IsGuarded :
      Bool
      → HttpHandler H
      → ServedRequest H
      → ResponseWriter
      → Option H.ErrorResponse
      → ResponseWriter
      → Type 0
  IsGuarded has_cors mux req w (some e) end = end ≡ refuse H e w
  IsGuarded has_cors mux req w none end =
      let token = (S.csrf req).token in
      let req' : ServedRequest H = record req {
        header = set_value H.canonical H.csrf_token_key token req.header;
      } in
      Reaches has_cors mux req' w end
      × (values_of (H.canonical H.csrf_token_key) req'.header ≡ token ∷ [])

  decided-IsGuarded :
      (has_cors : Bool) (mux : HttpHandler H) (req : ServedRequest H) (w : ResponseWriter)
      (e : Option H.ErrorResponse) (passed : ResponseWriter)
      → IsGuarded has_cors mux req w none passed
      → IsGuarded has_cors mux req w e (elim e [ some x ↦ refuse H x w | none ↦ passed ])
  decided-IsGuarded has_cors mux req w (some x) passed h = refl
  decided-IsGuarded has_cors mux req w none passed h = h

  token_values :
      (token : String) (h : Header)
      → values_of (H.canonical H.csrf_token_key) (set_value H.canonical H.csrf_token_key token h)
        ≡ token ∷ []
  unfolding set_value
  token_values token h =
      let key = H.canonical H.csrf_token_key in
      rw (values_of-put_values key key (λ vs. token ∷ []) h, str_eq_same key) refl

  csrf-IsGuarded :
      (mux : HttpHandler H) (req : ServedRequest H) (w : ResponseWriter)
      (has_csrf has_secure has_cors : Bool)
      → has_csrf ≡ true
      → IsGuarded has_cors mux req w (S.csrf req).err_resp (
          layered H S
            ((if has_csrf then csrf_interceptor ∷ [] else [])
              ++ (if has_secure then secure_interceptor ∷ [] else [])
              ++ (if has_cors then cors_interceptor ∷ [] else []))
            mux
            req
            w)
  unfolding layered around intercept_csrf
  csrf-IsGuarded mux req w true has_secure has_cors on =
      let out = S.csrf req in
      let req' : ServedRequest H = record req {
        header = set_value H.canonical H.csrf_token_key out.token req.header;
      } in
      let w' : ResponseWriter = record w {
        header = set_cookie H out.cookie (add_vary H out.vary_headers w.header);
      } in
      let inner =
        layered H S
          ((if has_secure then secure_interceptor ∷ [] else [])
            ++ (if has_cors then cors_interceptor ∷ [] else []))
          mux in
      decided-IsGuarded has_cors mux req w out.err_resp (inner req' w')
        (inner-Reaches mux req' w' has_secure has_cors, token_values out.token req.header)
  csrf-IsGuarded mux req w false has_secure has_cors on = absurd (cc on)

  -- Where the entry has csrf options, a request that is refused is answered with the refusal alone,
  -- whatever HttpMux is and the other interceptors decide. Any other request has the result of
  -- HttpMux, called with the request whose only change is the token of the interceptor as its only
  -- one, whatever the client has sent; unless the entry has cors options that abort that request,
  -- which ends with 204. The writer has by then sent and written nothing more than before. This holds
  -- of requests that are not for gRPC-Web, or upgrades to HTTP/2.
  pub server_handler-IsGuarded :
      {Error : Type 0} (join : String → String → String) (entry : GrpcEntry Error)
      (mux : HttpHandler H) (req : ServedRequest H) (w : ResponseWriter)
      → entry.has_csrf_options ≡ true
      → IsPlain entry.has_grpc_web_options req
      → IsGuarded entry.has_cors_options mux req w
          (S.csrf req).err_resp
          (server_handler H S join entry mux req w)
  unfolding server_handler http_handler
  server_handler-IsGuarded join entry mux req w on plain =
      let csrf = if entry.has_csrf_options then csrf_interceptor ∷ [] else [] in
      let secure = if entry.has_secure_options then secure_interceptor ∷ [] else [] in
      let cors = if entry.has_cors_options then cors_interceptor ∷ [] else [] in
      subst (IsGuarded entry.has_cors_options mux req w (S.csrf req).err_resp)
        (sym (outer-plain entry.has_grpc_web_options csrf secure cors mux req w plain))
        (csrf-IsGuarded mux req w entry.has_csrf_options entry.has_secure_options
          entry.has_cors_options on)

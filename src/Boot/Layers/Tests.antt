-- ===== src/Boot/Layers/Tests.antt =====
-- The interceptors around HttpMux at a concrete entry and request.
use rk_grpc.Prelude.{String, ◌≡◌, refl, true, false, none, some, [], ◌∷◌, str_eq, if◌then◌else◌}
use rk_grpc.Boot.Gateway.{ResponseWriter, write_header}
use rk_grpc.Boot.Entry.{GrpcEntry}
use rk_grpc.Boot.Entry.Statements.{http_handler}
use rk_grpc.Boot.Layers.{
  LayerLibraries, ServedRequest, HttpHandler, Surroundings, refuse, intercept_csrf, layered,
  server_handler,
}
use rk_grpc.Boot.Layers.Csrf.{IsGuarded, server_handler-IsGuarded}

abbrev libraries : LayerLibraries
libraries = record {
  Rest = String;
  Cookie = String;
  ErrorResponse = String;
  canonical = λ name. name;
  code = λ e. 403;
  marshal = λ e. e;
  cookie_text = λ c. some c;
  header_vary = "Vary";
  csrf_token_key = "X-CSRF-Token";
}

-- Only requests to "/get" are let through, with the token "t".
abbrev surroundings : Surroundings libraries
surroundings = record {
  cors = λ req. record {
    headers_to_return = ("Access-Control-Allow-Origin", "*") ∷ [];
    header_vary = "Origin" ∷ [];
    abort = false;
  };
  secure = λ req. ("X-Frame-Options", "SAMEORIGIN") ∷ [];
  csrf = λ req. record {
    err_resp = if str_eq req.rest "/get" then none else some "invalid token";
    vary_headers = "Cookie" ∷ [];
    cookie = some "_csrf=t";
    token = "t";
  };
  h2c = λ handler. handler;
  is_grpc_web_request = λ req. false;
  is_acceptable_grpc_cors_request = λ req. false;
  is_grpc_web_socket_request = λ req. false;
  grpc_web = λ req w. w;
}

abbrev guarded_entry : GrpcEntry String
guarded_entry = record {
  port = 8080;
  has_cors_options = true;
  has_secure_options = true;
  has_csrf_options = true;
  has_grpc_web_options = false;
  gw_reg_f = [];
  proxy_entry = none;
  sw_entry = none;
  docs_entry = none;
  static_file_entry = none;
  prom_entry = none;
  common_service_entry = none;
  pprof_entry = none;
}

abbrev mux : HttpHandler libraries
mux req w = write_header 200 w

-- A client that sends a token of its own.
abbrev forged : String → ServedRequest libraries
forged path = record { header = ("X-CSRF-Token", "mine" ∷ []) ∷ []; rest = path }

abbrev fresh : ResponseWriter
fresh = record { header = []; sent = none; body = [] }

server_handler-IsGuarded_example :
    IsGuarded libraries surroundings true mux (forged "/get") fresh none (
      server_handler libraries surroundings
        (λ path name. path)
        guarded_entry
        mux
        (forged "/get")
        fresh)
server_handler-IsGuarded_example =
    server_handler-IsGuarded libraries surroundings (λ path name. path) guarded_entry mux
      (forged "/get") fresh refl (λ h w. refl)

refused_test :
    server_handler libraries surroundings
      (λ path name. path)
      guarded_entry
      mux
      (forged "/post")
      fresh
    ≡ record { header = []; sent = some (403, []); body = "invalid token" ∷ [] }
unfolding server_handler layered http_handler intercept_csrf refuse write_header
refused_test = refl

-- ===== src/Boot/Gateway/Tests.antt =====
-- The theorems on the gateway at concrete inputs.
use rk_grpc.Prelude.{
  String, ◌≡◌, refl, true, none, some, List, [], ◌∷◌, ◌++◌, str_eq, ne_of_str_eq, eq_iff,
  if◌then◌else◌, ◌==◌, arith,
}
use rk_grpc.Middleware.Address.{values_of, name_loopback, get_remote_address_set_from_meta}
use rk_grpc.Middleware.Info.{get_gw_info}
use rk_grpc.Boot.HttpHeader.{Header}
use rk_grpc.Boot.Gateway.{
  HttpRequest, or_default, rk_gw_metadata_builder, HttpLibraries, ResponseWriter, Failure,
  http_error_handler, GwOption, merge_with_rk_gw_marshal_option, rk_marshal,
}
use rk_grpc.Boot.Gateway.Forwarded.{forwarded_or_spoofed}
use rk_grpc.Boot.Gateway.Errors.{http_error_handler-sends}

-- A join: each key of the first has also the values of the second.
join : List (String × List String) → List (String × List String) → List (String × List String)
join [] b = b
join ((k, vs) ∷ a) b = (k, vs ++ values_of k b) ∷ join a b

values_of-join :
    (k : String) (a b : List (String × List String))
    → values_of k (join a b) ≡ values_of k a ++ values_of k b
unfolding join values_of
values_of-join k [] b = refl
values_of-join k ((j, vs) ∷ a) b = ground (arith, eq_iff j k, values_of-join k a b)

-- The client claims to be another, at another address.
abbrev headers : List (String × List String)
headers = ("x-forwarded-remote-addr", "6.6.6.6:1" ∷ []) ∷ ("accept", "*" ∷ []) ∷ []

abbrev http_request : HttpRequest
http_request = record {
  method = "GET";
  path = "/v1/users/7";
  has_tls = true;
  remote_addr = "10.0.0.1:80";
  user_agent = "curl";
  pattern = some "/v1/users/{id}";
}

abbrev split : String → String × String
split address = if str_eq address "6.6.6.6:1" then ("6.6.6.6", "1") else ("10.0.0.1", "80")

forwarded_or_spoofed_example :
    let md = join headers (rk_gw_metadata_builder http_request) in
    (get_gw_info md
      ≡ record { method = "GET"; path = "/v1/users/{id}"; scheme = "https"; user_agent = "curl" })
    × (get_remote_address_set_from_meta split md ≡ ("6.6.6.6", "1"))
unfolding values_of name_loopback or_default
forwarded_or_spoofed_example = forwarded_or_spoofed join values_of-join split headers http_request

abbrev libraries : HttpLibraries
libraries = record {
  Detail = String;
  canonical = λ k. if str_eq k "grpc-status" then "Grpc-Status" else k;
  to_lower = λ s. s;
  contains = λ s t. str_eq s t;
  http_status = λ code. if code == 5 then 404 else 500;
  trailer_prefix = "Grpc-Trailer-";
  content_type = λ code message details. "application/json";
  error_body = λ st message details. message;
}

abbrev failure : Failure String
failure = record {
  code = 5;
  message = "no such user";
  details = [];
  header_md = ("grpc-status", "5" ∷ []) ∷ ("Grpc-Status", "6" ∷ []) ∷ [];
  trailer_md = ("t", "u" ∷ []) ∷ [];
}

abbrev writer : ResponseWriter
writer = record { header = ("Grpc-Status", "4" ∷ []) ∷ []; sent = none; body = [] }

http_error_handler-sends_example :
    (header : Header) × ((http_error_handler libraries "trailers" failure writer).sent
      ≡ some (404, header))
    × (values_of "Grpc-Status" header ≡ "4" ∷ "5" ∷ "6" ∷ [])
    × ((http_error_handler libraries "trailers" failure writer).body ≡ "no such user" ∷ [])
unfolding values_of
http_error_handler-sends_example =
    http_error_handler-sends libraries "trailers" "Grpc-Status" failure writer
      (ne_of_str_eq "Content-Type" "Grpc-Status" refl) (ne_of_str_eq "Trailer" "Grpc-Status" refl)
      (ne_of_str_eq "Transfer-Encoding" "Grpc-Status" refl)

-- A field that is not set keeps the default.
abbrev gw_option : GwOption
gw_option = record {
  marshal = some (record {
    multiline = some true;
    emit_unpopulated = none;
    indent = some "  ";
    allow_partial = none;
    use_proto_names = some true;
    use_enum_numbers = none;
  });
  unmarshal = none;
}

merged_options :
    merge_with_rk_gw_marshal_option (some gw_option)
    ≡ record rk_marshal { multiline = true; indent = "  "; use_proto_names = true }
unfolding merge_with_rk_gw_marshal_option
merged_options = refl

-- ===== src/Boot/Gateway.antt =====
-- The gateway of boot/gw_server_options.go: the options of its marshaller, the metadata that it
-- adds to a call, its header matchers and its error handler.
pub mod Forwarded
pub mod Errors
mod Tests
use Prim.Native.String
use rk_grpc.Prelude.{
  ℕ, String, Bool, true, false, Option, none, some, List, [], ◌∷◌, ◌++◌, str_eq, if◌then◌else◌,
}
use rk_grpc.Boot.HttpHeader.{Header, add_value, set_value, del_values}
use rk_grpc.Middleware.Address.{values_of}
use rk_grpc.Middleware.Info.{first_or_empty}

-- protojson.MarshalOptions and protojson.UnmarshalOptions, as far as they are set.
pub record MarshalOptions : Type 0 where
  pub multiline : Bool
  pub emit_unpopulated : Bool
  pub indent : String
  pub allow_partial : Bool
  pub use_proto_names : Bool
  pub use_enum_numbers : Bool

pub record UnmarshalOptions : Type 0 where
  pub allow_partial : Bool
  pub discard_unknown : Bool

-- `gwOption`: `none` is a nil pointer.
pub record GwMarshal : Type 0 where
  pub multiline : Option Bool
  pub emit_unpopulated : Option Bool
  pub indent : Option String
  pub allow_partial : Option Bool
  pub use_proto_names : Option Bool
  pub use_enum_numbers : Option Bool

pub record GwUnmarshal : Type 0 where
  pub allow_partial : Option Bool
  pub discard_unknown : Option Bool

pub record GwOption : Type 0 where
  pub marshal : Option GwMarshal
  pub unmarshal : Option GwUnmarshal

-- `if p != nil { x = *p }`
unfoldable pub or_default : {A : Type 0} → Option A → A → A
or_default none x = x
or_default (some y) x = y

-- The fields parsed one by one, over what they are before.
unfoldable pub set_marshal : MarshalOptions → GwMarshal → MarshalOptions
unfolding or_default
set_marshal o m = record {
  multiline = or_default m.multiline o.multiline;
  emit_unpopulated = or_default m.emit_unpopulated o.emit_unpopulated;
  indent = or_default m.indent o.indent;
  allow_partial = or_default m.allow_partial o.allow_partial;
  use_proto_names = or_default m.use_proto_names o.use_proto_names;
  use_enum_numbers = or_default m.use_enum_numbers o.use_enum_numbers;
}

unfoldable pub set_unmarshal : UnmarshalOptions → GwUnmarshal → UnmarshalOptions
unfolding or_default
set_unmarshal o u = record {
  allow_partial = or_default u.allow_partial o.allow_partial;
  discard_unknown = or_default u.discard_unknown o.discard_unknown;
}

-- `&protojson.MarshalOptions{}`, and the one with the repository's defaults.
abbrev pub zero_marshal : MarshalOptions
zero_marshal = record {
  multiline = false;
  emit_unpopulated = false;
  indent = "";
  allow_partial = false;
  use_proto_names = false;
  use_enum_numbers = false;
}

abbrev pub rk_marshal : MarshalOptions
rk_marshal = record zero_marshal { use_proto_names = false; emit_unpopulated = true }

abbrev pub zero_unmarshal : UnmarshalOptions
zero_unmarshal = record { allow_partial = false; discard_unknown = false }

-- `if opt == nil || opt.Marshal == nil { return res }`, and the fields otherwise.
unfoldable pub marshal_over : MarshalOptions → Option GwOption → MarshalOptions
unfolding set_marshal
marshal_over o none = o
marshal_over o (some opt) = elim (opt.marshal) [ none ↦ o | some m ↦ set_marshal o m ]

unfoldable pub unmarshal_over : UnmarshalOptions → Option GwOption → UnmarshalOptions
unfolding set_unmarshal
unmarshal_over o none = o
unmarshal_over o (some opt) = elim (opt.unmarshal) [ none ↦ o | some u ↦ set_unmarshal o u ]

unfoldable pub to_marshal_options : Option GwOption → MarshalOptions
unfolding marshal_over
to_marshal_options opt = marshal_over zero_marshal opt

unfoldable pub to_unmarshal_options : Option GwOption → UnmarshalOptions
unfolding unmarshal_over
to_unmarshal_options opt = unmarshal_over zero_unmarshal opt

unfoldable pub merge_with_rk_gw_marshal_option : Option GwOption → MarshalOptions
unfolding marshal_over
merge_with_rk_gw_marshal_option opt = marshal_over rk_marshal opt

unfoldable pub merge_with_rk_gw_unmarshal_option : Option GwOption → UnmarshalOptions
unfolding unmarshal_over
merge_with_rk_gw_unmarshal_option opt = unmarshal_over zero_unmarshal opt

-- What `rkGwMetadataBuilder` reads of the request, with the pattern of the route, if it is known.
pub record HttpRequest : Type 0 where
  pub method : String
  pub path : String
  pub has_tls : Bool
  pub remote_addr : String
  pub user_agent : String
  pub pattern : Option String

-- `md["x-forwarded-pattern"] = []string{pattern}`, a new key.
unfoldable pub pattern_entry : Option String → List (String × List String)
pattern_entry none = []
pattern_entry (some pattern) = ("x-forwarded-pattern", pattern ∷ []) ∷ []

unfoldable pub rk_gw_metadata_builder : HttpRequest → List (String × List String)
unfolding pattern_entry
rk_gw_metadata_builder req =
    ("x-forwarded-method", req.method ∷ [])
    ∷ ("x-forwarded-path", req.path ∷ [])
    ∷ ("x-forwarded-scheme", (if req.has_tls then "https" else "http") ∷ [])
    ∷ ("x-forwarded-remote-addr", req.remote_addr ∷ [])
    ∷ ("x-forwarded-user-agent", req.user_agent ∷ [])
    ∷ pattern_entry req.pattern

-- What the error handler uses of the libraries: textproto, strings.ToLower and strings.Contains,
-- runtime.HTTPStatusFromCode and MetadataTrailerPrefix, the marshaller's content type, and the
-- body that the error builder of rk-entry and json.Marshal make of an HTTP status, a message and the
-- details of a gRPC status.
pub record HttpLibraries : Type 1 where
  pub Detail : Type 0
  pub canonical : String → String
  pub to_lower : String → String
  pub contains : String → String → Bool
  pub http_status : ℕ → ℕ
  pub trailer_prefix : String
  pub content_type : ℕ → String → List Detail → String
  pub error_body : ℕ → String → List Detail → String

-- The ResponseWriter: the header as it is, the status line with the header that was sent with it,
-- and the body.
pub record ResponseWriter : Type 0 where
  pub header : Header
  pub sent : Option (ℕ × Header)
  pub body : List String

-- `w.WriteHeader`: the first status that is written is sent, with the header as it is.
unfoldable pub write_header : ℕ → ResponseWriter → ResponseWriter
write_header status w = elim (w.sent) [
  | none ↦ record w { sent = some (status, w.header) }
  | some s ↦ w
]

-- `status.Convert(err)` and `runtime.ServerMetadataFromContext(ctx)`.
pub record Failure (Detail : Type 0) : Type 0 where
  pub code : ℕ
  pub message : String
  pub details : List Detail
  pub header_md : List (String × List String)
  pub trailer_md : List (String × List String)

unfoldable pub outgoing_header_matcher : String → String × Bool
outgoing_header_matcher key = (key, true)

unfoldable pub is_forbidden_header : String → Bool
is_forbidden_header hdr = str_eq hdr "Connection"

unfoldable pub incoming_header_matcher : HttpLibraries → String → String × Bool
unfolding is_forbidden_header
incoming_header_matcher H key =
    if is_forbidden_header (H.canonical key) then ("", false) else (H.canonical key, true)

module _ (H : HttpLibraries) where
  -- `for _, v := range vs { w.Header().Add(h, v) }`
  unfoldable pub add_all : String → List String → Header → Header
  unfolding add_value
  add_all k [] h = h
  add_all k (v ∷ vs) h = add_all k vs (add_value H.canonical k v h)

  -- The loop over the header's metadata.
  unfoldable pub add_outgoing : List (String × List String) → Header → Header
  unfolding add_all outgoing_header_matcher
  add_outgoing [] h = h
  add_outgoing ((k, vs) ∷ md) h =
      let (name, ok) = outgoing_header_matcher k in
      add_outgoing md (if ok then add_all name vs h else h)

  unfoldable pub trailer_name : String → String
  trailer_name k = String.◌++◌ H.trailer_prefix k

  -- The loop that announces the trailers.
  unfoldable pub announce_trailers : List (String × List String) → Header → Header
  unfolding add_value trailer_name
  announce_trailers [] h = h
  announce_trailers ((k, vs) ∷ md) h =
      announce_trailers md (add_value H.canonical "Trailer" (H.canonical (trailer_name k)) h)

  -- The loop that adds the trailers.
  unfoldable pub add_trailers : List (String × List String) → Header → Header
  unfolding add_all trailer_name
  add_trailers [] h = h
  add_trailers ((k, vs) ∷ md) h = add_trailers md (add_all (trailer_name k) vs h)

  unfoldable pub wants_trailers : String → Bool
  wants_trailers te = H.contains (H.to_lower te) "trailers"

  -- `te` is the TE header of the request.
  unfoldable pub http_error_handler : String → Failure H.Detail → ResponseWriter → ResponseWriter
  unfolding add_outgoing announce_trailers add_trailers wants_trailers set_value del_values
      write_header
  http_error_handler te f w =
      let cleared =
        del_values H.canonical "Transfer-Encoding" (del_values H.canonical "Trailer" w.header) in
      let typed =
        set_value H.canonical "Content-Type" (H.content_type f.code f.message f.details) cleared in
      let outgoing = add_outgoing f.header_md typed in
      let announced =
        if wants_trailers te
        then set_value H.canonical "Transfer-Encoding" "chunked"
            (announce_trailers f.trailer_md outgoing)
        else outgoing in
      let written = write_header (H.http_status f.code) (record w { header = announced }) in
      record {
        header = if wants_trailers te then add_trailers f.trailer_md announced else announced;
        sent = written.sent;
        body = w.body ++ H.error_body (H.http_status f.code) f.message f.details ∷ [];
      }

-- ===== src/Middleware/Info.antt =====
-- What the interceptors report of a call: GetGwInfo, GetGrpcInfo and ToOptionsKey of
-- middleware/common.go. path.Dir and path.Base are parameters, and so is strings.TrimPrefix.
use Prim.Native.String
use rk_grpc.Prelude.{String, List, [], ◌∷◌}
use rk_grpc.Middleware.Address.{values_of}

-- The functions of Go's libraries that are called here, and net.SplitHostPort without its error.
pub record Paths : Type 0 where
  pub dir : String → String
  pub base : String → String
  pub trim_prefix : String → String → String
  pub split_host_port : String → String × String

pub record GwInfo : Type 0 where
  pub method : String
  pub path : String
  pub scheme : String
  pub user_agent : String

-- `if tokens := md[key]; len(tokens) > 0 { x = tokens[0] }`, where `x` is empty before.
unfoldable pub first_or_empty : List String → String
first_or_empty [] = ""
first_or_empty (token ∷ tokens) = token

unfoldable pub get_gw_info : List (String × List String) → GwInfo
unfolding first_or_empty
get_gw_info md = record {
  method = first_or_empty (values_of "x-forwarded-method" md);
  path = first_or_empty (values_of "x-forwarded-pattern" md);
  scheme = first_or_empty (values_of "x-forwarded-scheme" md);
  user_agent = first_or_empty (values_of "x-forwarded-user-agent" md);
}

-- Each part is set where the trimmed path is not empty, and is empty before.
unfoldable pub get_grpc_info : Paths → String → String × String
get_grpc_info P full_method =
    (P.trim_prefix (P.dir full_method) "/", P.trim_prefix (P.base full_method) "/")

unfoldable pub to_options_key : String → String → String
to_options_key entry_name rpc_type = String.◌++◌ entry_name (String.◌++◌ "-" rpc_type)

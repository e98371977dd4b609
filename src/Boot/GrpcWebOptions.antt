-- ===== src/Boot/GrpcWebOptions.antt =====
-- The options of the gRPC-Web server: ToAllowOriginFunc and ToGrpcWebOptions, boot/grpc_web.go.
-- strings.Split and regexp.MatchString are parameters.
pub mod Origins
pub mod Interval
mod Tests
use Prim.Native.String
use rk_grpc.Boot.Integers.{ℤ, pos, negsuc, to_int64}
use rk_grpc.Prelude.{
  ℕ, suc, ◌-◌, ◌*◌, String, Bool, true, false, Option, none, some, List, [], ◌∷◌, ◌++◌, ltb,
  if◌then◌else◌,
}

-- The functions of Go's libraries that are called here; an error is `none`.
pub record TextLibraries : Type 0 where
  pub split : String → String → List String
  pub match_string : String → String → Option Bool

-- The options of grpcweb. A ping interval is a time.Duration, in nanoseconds.
pub data GrpcWebOption : Type 0 where
  with_origin_func : (String → Bool) → GrpcWebOption
  with_websockets : Bool → GrpcWebOption
  with_websocket_ping_interval : ℤ → GrpcWebOption
  with_websockets_message_read_limit : ℤ → GrpcWebOption

-- `BootConfigGrpcWeb`, as far as it is read here.
pub record BootConfigGrpcWeb : Type 0 where
  pub allow_origins : List String
  pub websocket_enabled : Bool
  pub ping_interval_ms : ℤ
  pub message_read_limit_bytes : ℤ

-- The literals that follow the first, each after ".*".
unfoldable pub write_literals : List String → String
write_literals [] = ""
write_literals (literal ∷ ls) = String.◌++◌ ".*" (String.◌++◌ literal (write_literals ls))

unfoldable pub join_literals : List String → String
unfolding write_literals
join_literals [] = ""
join_literals (literal ∷ ls) = String.◌++◌ literal (write_literals ls)

module _ (L : TextLibraries) where
  -- The pattern of an origin, each "*" replaced by ".*".
  unfoldable pub allow_pattern : String → String
  unfolding join_literals
  allow_pattern origin = String.◌++◌ "^" (String.◌++◌ (join_literals (L.split origin "*")) "$")

  unfoldable pub allow_patterns : List String → List String
  unfolding allow_pattern
  allow_patterns [] = []
  allow_patterns (o ∷ os) = allow_pattern o ∷ allow_patterns os

  -- `res, _ := regexp.MatchString(pattern, origin)`
  unfoldable pub matches : String → String → Bool
  matches pattern origin = elim (L.match_string pattern origin) [ none ↦ false | some res ↦ res ]

  -- The loop over the patterns, which a match leaves, and what follows the loop.
  unfoldable pub check_origin : List String → String → Bool
  unfolding matches
  check_origin [] origin = false
  check_origin (p ∷ ps) origin = if matches p origin then false else check_origin ps origin

  -- The function that ToAllowOriginFunc makes.
  unfoldable pub allow_origin : List String → String → Bool
  unfolding check_origin allow_patterns
  allow_origin [] origin = true
  allow_origin (o ∷ os) origin = check_origin (allow_patterns (o ∷ os)) origin

  unfoldable pub to_allow_origin_func : List String → GrpcWebOption
  to_allow_origin_func allow_origins = with_origin_func (allow_origin allow_origins)

-- `if n > 0 { opt = append(opt, …) }`; the unit of the interval is time.Microsecond.
unfoldable pub ping_interval_option : ℤ → List GrpcWebOption
unfolding to_int64
ping_interval_option (pos (suc n)) = with_websocket_ping_interval (to_int64 (suc n * 1000)) ∷ []
ping_interval_option _ = []

unfoldable pub read_limit_option : ℤ → List GrpcWebOption
read_limit_option (pos (suc n)) = with_websockets_message_read_limit (pos (suc n)) ∷ []
read_limit_option _ = []

unfoldable pub to_grpc_web_options : TextLibraries → BootConfigGrpcWeb → List GrpcWebOption
unfolding to_allow_origin_func ping_interval_option read_limit_option
to_grpc_web_options L conf =
    to_allow_origin_func L conf.allow_origins
    ∷ (if conf.websocket_enabled
        then with_websockets true ∷ ping_interval_option conf.ping_interval_ms
          ++ read_limit_option conf.message_read_limit_bytes
        else [])

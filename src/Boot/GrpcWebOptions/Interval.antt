-- ===== src/Boot/GrpcWebOptions/Interval.antt =====
-- The ping interval that boot/grpc_web.go gives the gRPC-Web server.
use Prim.Native.Nat.{◌^◌}
use rk_grpc.Prelude.{ℕ, zero, suc, ◌*◌, ◌≤◌, ◌<◌, ◌≡◌, refl, ◌↔◌, List, [], ◌∷◌, arith, true}
use rk_grpc.Boot.Integers.{ℤ, pos, negsuc, to_int64}
use rk_grpc.Boot.GrpcWebOptions.{
  TextLibraries, BootConfigGrpcWeb, GrpcWebOption, with_origin_func, with_websockets,
  with_websocket_ping_interval, with_websockets_message_read_limit, ping_interval_option,
  read_limit_option, to_allow_origin_func, to_grpc_web_options,
}

-- The ping intervals among options, in nanoseconds.
unfoldable pub ping_intervals : List GrpcWebOption → List ℤ
ping_intervals [] = []
ping_intervals (with_origin_func _ ∷ os) = ping_intervals os
ping_intervals (with_websockets _ ∷ os) = ping_intervals os
ping_intervals (with_websocket_ping_interval i ∷ os) = i ∷ ping_intervals os
ping_intervals (with_websockets_message_read_limit _ ∷ os) = ping_intervals os

to_int64_fits : (n : ℕ) → (to_int64 n ≡ pos n) ↔ (n < 2 ^ 63)
unfolding to_int64
to_int64_fits n = (λ e. ground arith, λ h. ground arith)

ping_intervals-read_limit_option : (limit : ℤ) → ping_intervals (read_limit_option limit) ≡ []
unfolding ping_intervals read_limit_option
ping_intervals-read_limit_option (pos zero) = refl
ping_intervals-read_limit_option (pos (suc n)) = refl
ping_intervals-read_limit_option (negsuc n) = refl

-- The ping intervals that a configuration gives, where it has gRPC-Web sockets.
ping_intervals_lem :
    (L : TextLibraries) (conf : BootConfigGrpcWeb) (ms : ℕ)
    → conf.websocket_enabled ≡ true
    → conf.ping_interval_ms ≡ pos (suc ms)
    → ping_intervals (to_grpc_web_options L conf) ≡ to_int64 (suc ms * 1000) ∷ []
unfolding ping_intervals to_grpc_web_options ping_interval_option to_allow_origin_func
ping_intervals_lem L conf ms enabled given =
    rw (enabled, given, ping_intervals-read_limit_option conf.message_read_limit_bytes)

-- Where the configuration enables web sockets and gives a positive ping interval, the options have
-- one ping interval, and it is a thousand nanoseconds for each unit of the configured number,
-- exactly where that number is at most 9223372036854775.
pub to_grpc_web_options-interval :
    (L : TextLibraries) (conf : BootConfigGrpcWeb) (ms : ℕ)
    → conf.websocket_enabled ≡ true
    → conf.ping_interval_ms ≡ pos (suc ms)
    → (ping_intervals (to_grpc_web_options L conf) ≡ pos (suc ms * 1000) ∷ [])
      ↔ (suc ms ≤ 9223372036854775)
to_grpc_web_options-interval L conf ms enabled given =
    let options = ping_intervals_lem L conf ms enabled given in
    let fits = to_int64_fits (suc ms * 1000) in
    (λ e. omega (arith, fits.0 (cc (options, e))), λ h. cc (options, fits.1 (omega arith)))

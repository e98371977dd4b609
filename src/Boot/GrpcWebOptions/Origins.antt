-- ===== src/Boot/GrpcWebOptions/Origins.antt =====
-- Which origins the gRPC-Web server of boot/grpc_web.go allows.
use rk_grpc.Prelude.{String, ◌≡◌, refl, ◌≢◌, Bool, false, List, [], ◌∷◌, arith}
use rk_grpc.Boot.GrpcWebOptions.{
  TextLibraries, GrpcWebOption, with_origin_func, BootConfigGrpcWeb, check_origin, allow_origin,
  allow_patterns, to_allow_origin_func, to_grpc_web_options,
}

check_origin-false :
    (L : TextLibraries) (patterns : List String) (origin : String)
    → check_origin L patterns origin ≡ false
unfolding check_origin
check_origin-false L [] origin = refl
check_origin-false L (p ∷ ps) origin = ground (arith, check_origin-false L ps origin)

allow_origin_refuses :
    (L : TextLibraries) (allow_origins : List String) (origin : String)
    → allow_origins ≢ []
    → allow_origin L allow_origins origin ≡ false
unfolding allow_origin
allow_origin_refuses L [] origin listed = absurd (listed refl)
allow_origin_refuses L (o ∷ os) origin listed =
    check_origin-false L (allow_patterns L (o ∷ os)) origin

-- Where the configuration lists an origin, the first option that the server is given refuses every
-- origin, the listed ones included.
pub to_grpc_web_options-refuses :
    (L : TextLibraries) (conf : BootConfigGrpcWeb)
    → conf.allow_origins ≢ []
    → (allows : String → Bool) × (rest : List GrpcWebOption) × (to_grpc_web_options L conf
        ≡ with_origin_func allows ∷ rest)
      × ((origin : String) → allows origin ≡ false)
unfolding to_grpc_web_options to_allow_origin_func
to_grpc_web_options-refuses L conf listed =
    (_, _, refl, λ origin. allow_origin_refuses L conf.allow_origins origin listed)

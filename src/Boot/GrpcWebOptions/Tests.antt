-- ===== src/Boot/GrpcWebOptions/Tests.antt =====
-- Runs of the functions of boot/grpc_web.go, and the examples of their theorems. Here a text is
-- split at "*" only, and a pattern without "*" matches the one origin that stands in it.
use Prim.Native.Char.{Char, code}
use Prim.Native.String
use rk_grpc.Prelude.{
  String, ◌≡◌, refl, Bool, true, false, some, List, [], ◌∷◌, ◌==◌, str_eq, ◌||◌, ◌*◌, if◌then◌else◌,
  ◌↔◌, ◌≤◌,
}
use rk_grpc.Boot.Integers.{pos, negsuc, to_int64}
use rk_grpc.Boot.GrpcWebOptions.{
  TextLibraries, GrpcWebOption, with_origin_func, BootConfigGrpcWeb, allow_pattern, allow_origin,
  to_grpc_web_options,
}
use rk_grpc.Boot.GrpcWebOptions.Origins.{to_grpc_web_options-refuses}
use rk_grpc.Boot.GrpcWebOptions.Interval.{ping_intervals, to_grpc_web_options-interval}

put_first : Char → List String → List String
put_first c [] = String.◌∷◌ c "" ∷ []
put_first c (s ∷ ss) = String.◌∷◌ c s ∷ ss

split_at_star : String → List String
unfolding put_first
split_at_star String.[] = "" ∷ []
split_at_star (String.◌∷◌ c s) =
    let rest = split_at_star s in if code c == 42 then "" ∷ rest else put_first c rest

abbrev plain_text : TextLibraries
plain_text = record {
  split = λ text separator. split_at_star text;
  match_string = λ pattern origin.
      some (str_eq pattern "^.*$" || str_eq pattern (String.◌++◌ "^" (String.◌++◌ origin "$")));
}

abbrev any_origin : BootConfigGrpcWeb
any_origin = record {
  allow_origins = "*" ∷ [];
  websocket_enabled = true;
  ping_interval_ms = pos 5;
  message_read_limit_bytes = pos 1024;
}

pattern_test : allow_pattern plain_text "a*b" ≡ "^a.*b$"
unfolding allow_pattern split_at_star
pattern_test = refl

listed_test : allow_origin plain_text ("http://a" ∷ []) "http://a" ≡ false
unfolding allow_origin split_at_star
listed_test = refl

no_list_test : allow_origin plain_text [] "http://a" ≡ true
unfolding allow_origin
no_list_test = refl

wraps_test : to_int64 (9223372036854776 * 1000) ≡ negsuc 9223372036854775615
unfolding to_int64
wraps_test = refl

to_grpc_web_options-refuses_example :
    (allows : String → Bool) × (rest : List GrpcWebOption) × (to_grpc_web_options plain_text
        any_origin
      ≡ with_origin_func allows ∷ rest)
    × ((origin : String) → allows origin ≡ false)
to_grpc_web_options-refuses_example = to_grpc_web_options-refuses plain_text any_origin (λ e. cc)

to_grpc_web_options-interval_example :
    (ping_intervals (to_grpc_web_options plain_text any_origin) ≡ pos (5 * 1000) ∷ [])
    ↔ (5 ≤ 9223372036854775)
to_grpc_web_options-interval_example =
    to_grpc_web_options-interval plain_text any_origin 4 refl refl

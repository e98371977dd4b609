-- ===== src/Proxy/Tests.antt =====
-- The theorems on the proxy at concrete inputs, over concrete libraries: a CIDR holds the address
-- that it spells, a regular expression matches its own text, and the random source counts.
use Prim.Native.Nat.{◌%◌}
use mathlib.Core.List.Perm
use rk_grpc.Prelude.{
  ℕ, suc, String, inl, inr, ◌≡◌, refl, ◌≢◌, true, Option, none, some, List, [], ◌∷◌, str_eq, arith,
  if◌then◌else◌, eq_iff, ne_of_str_eq,
}
use rk_grpc.Proxy.Rule.{
  Libraries, RandLaws, Rule, Request, Metadata, headers_match, new_rule, match_ip_pattern,
  match_path_pattern, pick, any_cidr, any_path,
}
use rk_grpc.Proxy.Rule.Order.{headers_match-Perm}
use rk_grpc.Proxy.Director.{dials, panics, get_director}
use rk_grpc.Proxy.Director.Safety.{Allows, get_director-Allows}
use rk_grpc.Proxy.Director.Routing.{
  IsWellFormed, IsUsable, Follows, route, get_director-Follows, get_director-panics,
}
use rk_grpc.Proxy.Config.{configured_rule, split_pair, rule_options, RuleConfig}
use rk_grpc.Proxy.Config.Laws.{last_value, malformed_header_rule_is_catchall}
use rk_grpc.Proxy.Codec.{proxy_codec, frame, codec_with_fallback, raw_marshal}
use rk_grpc.Proxy.Handler.{
  eof, fault, nil_error, Outcome, Step, s2c_round, c2s_round, receive_s2c, receive_c2s, run, start,
  step,
}
use rk_grpc.Proxy.Handler.Channels.{ReportsOnce, run-start-ReportsOnce}
use rk_grpc.Proxy.Handler.Order.{InOrder, run-start-InOrder}
use rk_grpc.Proxy.Handler.Results.{nil_error_delivers}
use rk_grpc.Proxy.Handler.Progress.{run-start_can_return}
use rk_grpc.Proxy.Call.{Backends, by_loop, answered, handler_after, enter_handler}
use rk_grpc.Proxy.Call.Delivers.{Delivered, nil_answer_delivers}

abbrev libraries : Libraries
libraries = record {
  Subnet = String;
  Ip = String;
  Rand = ℕ;
  parse_cidr = λ s. if str_eq s "bad" then none else some s;
  parse_ip = λ s. s;
  contains = λ s ip. str_eq s ip;
  match_string = λ re m. if str_eq re "(" then none else some (str_eq re m);
  intn = λ r n. (r % n, suc r);
}

laws : RandLaws libraries
laws = record { intn-lt = λ r n h. omega arith }

abbrev rule : Rule
rule = record {
  header_pattern =
      record { headers = ("domain", "test") ∷ ("env", "dev") ∷ []; dest = "c:1" ∷ [] } ∷ [];
  path_pattern = record { paths = "(" ∷ "/v1.Greeter/Hello" ∷ []; dest = "b:1" ∷ "b:2" ∷ [] } ∷ [];
  ip_pattern = record { cidrs = "bad" ∷ "10.0.0.1" ∷ []; dest = "a:1" ∷ [] } ∷ [];
}

abbrev metadata : Metadata
metadata = ("env", "dev" ∷ []) ∷ ("domain", "prod" ∷ "test" ∷ []) ∷ []

abbrev request : Request
request = record {
  remote_ip = "10.0.0.9";
  method = some "/v1.Greeter/Hello";
  metadata = some metadata;
}

headers_match-Perm_example :
    headers_match true (("domain", "test") ∷ ("env", "dev") ∷ []) metadata
    ≡ headers_match true (("env", "dev") ∷ ("domain", "test") ∷ []) metadata
headers_match-Perm_example = headers_match-Perm metadata (Perm.swap _ _ _)

request_is_dialled : get_director libraries rule request 3 ≡ dials "b:2" 4
unfolding get_director match_ip_pattern match_path_pattern pick any_cidr any_path
request_is_dialled = refl

get_director-Allows_example : ◌≢◌ {A = String} "b:2" "" × Allows libraries rule request "b:2"
get_director-Allows_example =
    get_director-Allows libraries rule request 3 4 "b:2" request_is_dialled

rule-IsWellFormed : IsWellFormed rule
rule-IsWellFormed = record {
  ips = (((λ e. cc), (ground (arith, eq_iff "a:1" ""), tt)), tt);
  paths =
      (((λ e. cc), (ground (arith, eq_iff "b:1" ""), (ground (arith, eq_iff "b:2" ""), tt))), tt);
  headers = (((λ e. cc), (ground (arith, eq_iff "c:1" ""), tt)), tt);
}

get_director-Follows_example :
    Follows libraries (route libraries rule request) (get_director libraries rule request 3)
get_director-Follows_example = get_director-Follows libraries rule request 3 laws rule-IsWellFormed

abbrev empty_dest : Rule
empty_dest = record {
  header_pattern = [];
  path_pattern = record { paths = "/v1.Greeter/Hello" ∷ []; dest = [] } ∷ [];
  ip_pattern = [];
}

get_director-panics_example : get_director libraries empty_dest request 0 ≡ panics
unfolding any_path
get_director-panics_example = get_director-panics libraries empty_dest request 0 refl

abbrev malformed : RuleConfig
malformed = record {
  rule_type = "headerBased";
  header_pairs = "domain=test" ∷ [];
  dest = "c:1" ∷ [];
  paths = [];
  ips = [];
}

abbrev misspelt : RuleConfig
misspelt = record {
  rule_type = "IpBased";
  header_pairs = [];
  dest = "a:1" ∷ [];
  paths = [];
  ips = "10.0.0.1" ∷ [];
}

abbrev configuration : List RuleConfig
configuration = malformed ∷ misspelt ∷ []

-- The type "IpBased" of the sample configurations is not the type "ipBased" of the code.
misspelt_rule_is_dropped : (configured_rule configuration).ip_pattern ≡ []
unfolding configured_rule rule_options new_rule
misspelt_rule_is_dropped = refl

last_pair_wins : last_value "k" ("k:1" ∷ "k" ∷ "k:a:b" ∷ []) none ≡ some "a:b"
unfolding split_pair
last_pair_wins = refl

usable : IsUsable malformed.dest
usable = ((λ e. cc e), (ne_of_str_eq "c:1" "" refl, tt))

malformed_header_rule_is_catchall_example :
    Follows libraries
      (some ("c:1" ∷ []))
      (get_director libraries (configured_rule configuration) request 0)
unfolding configured_rule rule_options new_rule
malformed_header_rule_is_catchall_example =
    malformed_header_rule_is_catchall libraries malformed (misspelt ∷ []) request metadata 0 laws
      refl (omega arith) usable refl refl refl

abbrev up : List ℕ
up = 1 ∷ []

abbrev down : List ℕ
down = 2 ∷ 3 ∷ []

-- A codec of numbers, each a list of one byte.
abbrev marshal : ℕ → Option (List ℕ)
marshal m = some (m ∷ [])

abbrev unmarshal : List ℕ → ℕ → Option ℕ
unmarshal [] m = none
unmarshal (b ∷ bytes) m = some b

frames_pass :
    (proxy_codec marshal unmarshal).marshal (frame (record { payload = down })) ≡ some down
unfolding proxy_codec codec_with_fallback raw_marshal
frames_pass = refl

abbrev schedule : List (Step String)
schedule =
    s2c_round none
    ∷ c2s_round none none none
    ∷ s2c_round none
    ∷ receive_s2c
    ∷ c2s_round none none none
    ∷ c2s_round none none none
    ∷ receive_c2s
    ∷ []

run-start-ReportsOnce_example : ReportsOnce (run schedule (start up eof down eof))
run-start-ReportsOnce_example = run-start-ReportsOnce schedule up down eof eof

run-start-InOrder_example :
    let s = run schedule (start up eof down eof) in InOrder up s.s2c × InOrder down s.c2s
run-start-InOrder_example = run-start-InOrder schedule up down eof eof

schedule_returns_nil : (run schedule (start up eof down eof)).outcome ≡ some nil_error
unfolding run step start
schedule_returns_nil = refl

nil_error_delivers_example :
    let s = run schedule (start up eof down eof) in
    (s.c2s.ending ≡ eof)
    × (s.c2s.sent ≡ down)
    × (down ≢ [] → s.header_sent ≡ true)
    × (s.trailer_set ≡ true)
nil_error_delivers_example =
    nil_error_delivers schedule up down eof eof (omega arith) schedule_returns_nil

run-start_can_return_example :
    (more : List (Step String)) × (o : Outcome String) × ((run more
        (run (s2c_round none ∷ []) (start up eof down (fault "reset")))).outcome
      ≡ some o)
run-start_can_return_example =
    run-start_can_return (s2c_round none ∷ []) up down eof (fault "reset")

-- A connection is the destination, "c:1" cannot be dialled, and every stream gives the same frames.
abbrev backends : Backends ℕ String
backends = record {
  Conn = String;
  dial = λ dest. if str_eq dest "c:1" then inl "refused" else inr dest;
  new_client_stream = λ conn method header. inr (down, eof);
  local_ip = "10.0.0.1";
}

call_returns_nil :
    handler_after schedule (enter_handler backends up eof libraries rule request 3)
    ≡ answered (by_loop nil_error)
unfolding handler_after enter_handler get_director match_ip_pattern match_path_pattern pick any_cidr
    any_path run step start
call_returns_nil = refl

nil_answer_delivers_example :
    (method : String) × (dest : String) × (request.method ≡ some method)
    × (dest ≢ "")
    × Allows libraries rule request dest
    × Delivered backends up eof schedule dest method
nil_answer_delivers_example =
    nil_answer_delivers backends up eof schedule libraries rule request 3 (omega arith)
      call_returns_nil

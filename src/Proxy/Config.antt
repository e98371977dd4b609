-- ===== src/Proxy/Config.antt =====
-- How the boot configuration of the proxy becomes rules: `BootConfigProxy` of boot/proxy_entry.go
-- and the loop of `RegisterGrpcEntryYAML` in boot/grpc_entry.go over its rules.
pub mod Laws
use Prim.Native.Char.{code}
use mathlib.Core.Option
use rk_grpc.Prelude.{
  String, Bool, true, false, Option, none, some, List, [], ◌∷◌, ◌++◌, str_eq, ◌==◌, if◌then◌else◌,
}
use rk_grpc.Proxy.Rule.{
  HeaderPattern, PathPattern, IpPattern, Rule, RuleOption, with_header_patterns, with_path_patterns,
  with_ip_patterns, new_rule,
}

-- An element of the `rules` of `BootConfigProxy`; `rule_type` is its `type`.
pub record RuleConfig : Type 0 where
  pub rule_type : String
  pub header_pairs : List String
  pub dest : List String
  pub paths : List String
  pub ips : List String

abbrev pub header_based : String
header_based = "headerBased"

abbrev pub path_based : String
path_based = "pathBased"

abbrev pub ip_based : String
ip_based = "ipBased"

-- `strings.SplitN(s, ":", 2)` where it gives two tokens; `none` where it gives another number.
unfoldable pub split_pair : String → Option (String × String)
split_pair String.[] = none
split_pair (String.◌∷◌ c s) =
    if code c == b':'
    then some ("", s)
    else Option.map (λ (k, v). (String.◌∷◌ c k, v)) (split_pair s)

-- `headers[k] = v`
unfoldable pub put : String → String → List (String × String) → List (String × String)
put k v [] = (k, v) ∷ []
put k v ((j, w) ∷ m) = if str_eq j k then (k, v) ∷ m else (j, w) ∷ put k v m

-- The loop over the header pairs, from the map that the earlier pairs gave.
unfoldable pub header_map : List String → List (String × String) → List (String × String)
header_map [] m = m
header_map (s ∷ ss) m = elim (split_pair s) [
  | none ↦ header_map ss m
  | some (k, v) ↦ header_map ss (put k v m)
]

-- The `switch` on the type of a rule; a rule of another type adds no option.
unfoldable pub rule_options : List RuleConfig → List RuleOption
rule_options [] = []
rule_options (c ∷ cs) =
    let rest = rule_options cs in
    if str_eq c.rule_type header_based
    then with_header_patterns
        (record { headers = header_map c.header_pairs []; dest = c.dest } ∷ [])
      ∷ rest
    else if str_eq c.rule_type path_based
    then with_path_patterns (record { paths = c.paths; dest = c.dest } ∷ []) ∷ rest
    else if str_eq c.rule_type ip_based
    then with_ip_patterns (record { cidrs = c.ips; dest = c.dest } ∷ []) ∷ rest
    else rest

unfoldable pub configured_rule : List RuleConfig → Rule
configured_rule cs = new_rule (rule_options cs)

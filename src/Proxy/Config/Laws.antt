-- ===== src/Proxy/Config/Laws.antt =====
-- What the configured rules of the proxy amount to (boot/grpc_entry.go, boot/proxy_entry.go).
use Prim.Native.Char.{code}
use rk_grpc.Prelude.{
  String, ◌≡◌, refl, ◌≢◌, true, false, Option, none, some, List, [], ◌∷◌, ◌++◌, str_eq, eq_iff,
  if◌then◌else◌, All, arith, append_assoc, append-nil, Option-cases, Bool-cases, inl, inr, ap, ◌∙◌,
}
use rk_grpc.Proxy.Rule.{
  Libraries, RandLaws, HeaderPattern, PathPattern, IpPattern, Rule, Request, Metadata,
  headers_match, apply_options, new_rule,
}
use rk_grpc.Proxy.Director.{get_director}
use rk_grpc.Proxy.Director.Routing.{
  IsUsable, Follows, ip_dest, path_dest, header_dest, get_director-route,
}
use rk_grpc.Proxy.Config.{
  RuleConfig, header_based, path_based, ip_based, split_pair, put, header_map, rule_options,
  configured_rule,
}

-- The patterns of each kind, in the order of the configuration.
abbrev pub header_patterns : List RuleConfig → List HeaderPattern
header_patterns [] = []
header_patterns (c ∷ cs) =
    if str_eq c.rule_type header_based
    then record { headers = header_map c.header_pairs []; dest = c.dest } ∷ header_patterns cs
    else header_patterns cs

abbrev pub path_patterns : List RuleConfig → List PathPattern
path_patterns [] = []
path_patterns (c ∷ cs) =
    if str_eq c.rule_type path_based
    then record { paths = c.paths; dest = c.dest } ∷ path_patterns cs
    else path_patterns cs

abbrev pub ip_patterns : List RuleConfig → List IpPattern
ip_patterns [] = []
ip_patterns (c ∷ cs) =
    if str_eq c.rule_type ip_based
    then record { cidrs = c.ips; dest = c.dest } ∷ ip_patterns cs
    else ip_patterns cs

abbrev configured_from : Rule → List RuleConfig → Rule
configured_from r cs = record {
  header_pattern = r.header_pattern ++ header_patterns cs;
  path_pattern = r.path_pattern ++ path_patterns cs;
  ip_pattern = r.ip_pattern ++ ip_patterns cs;
}

other_name : (t a b : String) → str_eq a b ≡ false → str_eq t a ≡ true → str_eq t b ≡ false
other_name t a b ne same = ground (arith, eq_iff t a, eq_iff t b, eq_iff a b)

apply_options-rule_options :
    (cs : List RuleConfig) (r : Rule) → apply_options (rule_options cs) r ≡ configured_from r cs
unfolding apply_options rule_options
apply_options-rule_options [] r = simp append-nil
apply_options-rule_options (c ∷ cs) r = elim (Bool-cases (str_eq c.rule_type header_based)) [
  | inl h ↦
      rw
        (
          h,
          other_name c.rule_type header_based path_based refl h,
          other_name c.rule_type header_based ip_based refl h,
        )
        (apply_options-rule_options cs _ ∙ simp append_assoc)
  | inr not_h ↦ elim (Bool-cases (str_eq c.rule_type path_based)) [
    | inl p ↦
        rw (not_h, p, other_name c.rule_type path_based ip_based refl p)
          (apply_options-rule_options cs _ ∙ simp append_assoc)
    | inr not_p ↦ elim (Bool-cases (str_eq c.rule_type ip_based)) [
      | inl i ↦ rw (not_h, not_p, i) (apply_options-rule_options cs _ ∙ simp append_assoc)
      | inr not_i ↦ rw (not_h, not_p, not_i) (apply_options-rule_options cs r)
    ]
  ]
]

-- Each kind of pattern is kept in the order of the configuration, and a rule whose type is none of
-- the three names, letter by letter, leaves no pattern.
configured_rule-patterns :
    (cs : List RuleConfig)
    → configured_rule cs ≡ record {
      header_pattern = header_patterns cs;
      path_pattern = path_patterns cs;
      ip_pattern = ip_patterns cs;
    }
unfolding configured_rule new_rule
configured_rule-patterns cs =
    apply_options-rule_options cs
      (record { header_pattern = []; path_pattern = []; ip_pattern = [] })

-- `m[k]`
abbrev pub get : String → List (String × String) → Option String
get k [] = none
get k ((j, v) ∷ m) = if str_eq j k then some v else get k m

-- The value of the last pair under the key, or the given one.
abbrev pub last_value : String → List String → Option String → Option String
last_value k [] found = found
last_value k (s ∷ ss) found = elim (split_pair s) [
  | none ↦ last_value k ss found
  | some (j, v) ↦ last_value k ss (if str_eq j k then some v else found)
]

get-put :
    (j k v : String) (m : List (String × String))
    → get j (put k v m) ≡ (if str_eq k j then some v else get j m)
unfolding put
get-put j k v [] = refl
get-put j k v ((i, w) ∷ m) = ground (arith, eq_iff i k, eq_iff i j, eq_iff k j, get-put j k v m)

-- In the map of a header rule the last pair of a key wins; pairs without a colon count for nothing.
get-header_map :
    (k : String) (ss : List String) (m : List (String × String))
    → get k (header_map ss m) ≡ last_value k ss (get k m)
unfolding header_map
get-header_map k [] m = refl
get-header_map k (s ∷ ss) m = elim (Option-cases (split_pair s)) [
  | inl unpaired ↦ rw (unpaired, header_map, last_value) (get-header_map k ss m)
  | inr ((j, v), pair) ↦
      rw (pair, header_map, last_value)
        (get-header_map k ss (put j v m) ∙ ap (last_value k ss) (get-put k j v m))
]

abbrev pub NoColon : String → Type 0
NoColon String.[] = Unit
NoColon (String.◌∷◌ c s) = (code c ≢ b':') × NoColon s

split_pair-NoColon : (s : String) → NoColon s → split_pair s ≡ none
unfolding split_pair
split_pair-NoColon String.[] h = refl
split_pair-NoColon (String.◌∷◌ c s) (ne, h) = ground (arith, split_pair-NoColon s h)

header_map-NoColon :
    (ss : List String) (m : List (String × String)) → All NoColon ss → header_map ss m ≡ m
unfolding header_map
header_map-NoColon [] m h = refl
header_map-NoColon (s ∷ ss) m (h, hs) =
    rw (split_pair-NoColon s h, header_map) (header_map-NoColon ss m hs)

-- The header rule that stands first, none of whose pairs has a colon, matches every metadata.
malformed_rule_matches :
    (c : RuleConfig) (cs : List RuleConfig) (L : Libraries) (md : Metadata)
    → c.rule_type ≡ header_based
    → All NoColon c.header_pairs
    → header_dest L (configured_rule (c ∷ cs)) (some md) ≡ some c.dest
unfolding headers_match
malformed_rule_matches c cs L md kind malformed =
    rw (configured_rule-patterns (c ∷ cs), kind)
      (rw (header_map-NoColon c.header_pairs [] malformed))

-- Where the first rule of the configuration is a header rule none of whose pairs has a colon, and
-- its dest is not empty and holds no empty text, the director dials a member of that dest for every
-- request that has metadata, whatever it is, and matches no rule by address or path.
pub malformed_header_rule_is_catchall :
    (L : Libraries) (c : RuleConfig) (cs : List RuleConfig) (req : Request) (md : Metadata)
    (rand : L.Rand)
    → RandLaws L
    → c.rule_type ≡ header_based
    → All NoColon c.header_pairs
    → IsUsable c.dest
    → req.metadata ≡ some md
    → ip_dest L (configured_rule (c ∷ cs)) req ≡ none
    → path_dest L (configured_rule (c ∷ cs)) req.method ≡ none
    → Follows L (some c.dest) (get_director L (configured_rule (c ∷ cs)) req rand)
malformed_header_rule_is_catchall L c cs req md rand laws kind malformed usable has no_ip no_path =
    let r = configured_rule (c ∷ cs) in
    let chosen : header_dest L r req.metadata ≡ some c.dest =
      rw has (malformed_rule_matches c cs L md kind malformed) in
    let by_header : (ds : List String) → header_dest L r req.metadata ≡ some ds → IsUsable ds =
      (λ ds h. let same : c.dest ≡ ds = cc (h, chosen) in rw (← same) usable) in
    rw (no_ip, no_path, chosen) at
      (get_director-route L r req rand laws (λ ds h. absurd (cc (h, no_ip)))
        (λ ds h. absurd (cc (h, no_path))) by_header)

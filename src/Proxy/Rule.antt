-- ===== src/Proxy/Rule.antt =====
-- The rules of the proxy: `rule`, its options and its three matchers, boot/proxy_entry.go.
-- What is external is a parameter: CIDR and IP parsing (package net), regular expressions (package
-- regexp) and the random source (package math/rand). A map is the list of its entries in the order
-- in which Go happens to range over it.
pub mod Matching
pub mod Order
use rk_grpc.Prelude.{
  ℕ, zero, ◌<◌, String, ◌≡◌, Bool, true, false, ◌||◌, Option, none, some, List, [], ◌∷◌, ◌++◌,
  str_eq, if◌then◌else◌, length, get_elem?,
}

-- The functions of the Go libraries that the matchers call; `none` is an error result.
pub record Libraries : Type 1 where
  pub Subnet : Type 0
  pub Ip : Type 0
  pub Rand : Type 0
  pub parse_cidr : String → Option Subnet
  pub parse_ip : String → Ip
  pub contains : Subnet → Ip → Bool
  pub match_string : String → String → Option Bool
  -- `rand.Intn` at a positive bound: the number and the source after it.
  pub intn : Rand → ℕ → ℕ × Rand

-- The documented range of `rand.Intn`.
pub record RandLaws (L : Libraries) : Type 0 where
  pub intn-lt : (r : L.Rand) (n : ℕ) → 0 < n → (L.intn r n).0 < n

pub record HeaderPattern : Type 0 where
  pub headers : List (String × String)
  pub dest : List String

pub record PathPattern : Type 0 where
  pub paths : List String
  pub dest : List String

pub record IpPattern : Type 0 where
  pub cidrs : List String
  pub dest : List String

-- The fields of `rule`, but for its random source, which the matchers pass on.
pub record Rule : Type 0 where
  pub header_pattern : List HeaderPattern
  pub path_pattern : List PathPattern
  pub ip_pattern : List IpPattern

pub data RuleOption : Type 0 where
  with_header_patterns : List HeaderPattern → RuleOption
  with_path_patterns : List PathPattern → RuleOption
  with_ip_patterns : List IpPattern → RuleOption

unfoldable pub apply_option : RuleOption → Rule → Rule
apply_option (with_header_patterns ps) r = record r { header_pattern = r.header_pattern ++ ps }
apply_option (with_path_patterns ps) r = record r { path_pattern = r.path_pattern ++ ps }
apply_option (with_ip_patterns ps) r = record r { ip_pattern = r.ip_pattern ++ ps }

unfoldable pub apply_options : List RuleOption → Rule → Rule
unfolding apply_option
apply_options [] r = r
apply_options (o ∷ os) r = apply_options os (apply_option o r)

unfoldable pub new_rule : List RuleOption → Rule
unfolding apply_options
new_rule opts =
    apply_options opts (record { header_pattern = []; path_pattern = []; ip_pattern = [] })

-- gRPC metadata: a key with the list of its values.
abbrev pub Metadata : Type 0
Metadata = List (String × List String)

-- `md[k]`: `none` is the nil slice of a missing key.
abbrev pub values : String → Metadata → Option (List String)
values k [] = none
values k ((j, vs) ∷ md) = if str_eq j k then some vs else values k md

-- What the matchers read of a call's context: the remote IP of `GetRemoteAddressSet`, the method
-- of `grpc.Method` and the incoming metadata, each `none` where the context has none.
pub record Request : Type 0 where
  pub remote_ip : String
  pub method : Option String
  pub metadata : Option Metadata

-- How a matcher ends: with no match, with a destination, or in the panic of `Intn(0)`. The source
-- is the one that the next draw uses.
pub data Matched {ℓ} (R : Type ℓ) : Type ℓ where
  unmatched : R → Matched R
  matched : String → R → Matched R
  panicked : Matched R

unfoldable pub contains_slice : Option (List String) → String → Bool
contains_slice none target = false
contains_slice (some []) target = false
contains_slice (some (s ∷ src)) target = str_eq s target || contains_slice (some src) target

-- The loop over the headers of a pattern, with its `matched` and the `break` at the first that
-- is missing.
unfoldable pub headers_match : Bool → List (String × String) → Metadata → Bool
headers_match found [] md = found
headers_match found ((k, v) ∷ hs) md =
    let here = contains_slice (values k md) v in if here then headers_match here hs md else false

module _ (L : Libraries) where
  -- `pattern.Dest[r.rand.Intn(len(pattern.Dest))]`
  unfoldable pub pick : List String → L.Rand → Matched L.Rand
  pick [] rand = panicked
  pick (d ∷ ds) rand =
      let (i, rand') = L.intn rand (length (d ∷ ds)) in
      elim (get_elem? (d ∷ ds) i) [ none ↦ panicked | some dest ↦ matched dest rand' ]

  -- Does a CIDR of the list hold the address? One that does not parse is passed over.
  unfoldable pub any_cidr : List String → L.Ip → Bool
  any_cidr [] ip = false
  any_cidr (c ∷ cs) ip = elim (L.parse_cidr c) [
    | none ↦ any_cidr cs ip
    | some subnet ↦ L.contains subnet ip || any_cidr cs ip
  ]

  pub match_ips : List IpPattern → L.Ip → L.Rand → Matched L.Rand
  match_ips [] ip rand = unmatched rand
  match_ips (p ∷ ps) ip rand =
      if any_cidr p.cidrs ip then pick p.dest rand else match_ips ps ip rand

  unfoldable pub match_ip_pattern : Rule → Request → L.Rand → Matched L.Rand
  unfolding match_ips
  match_ip_pattern r req rand = match_ips r.ip_pattern (L.parse_ip req.remote_ip) rand

  -- Does a regular expression of the list match? One that does not compile is passed over.
  unfoldable pub any_path : List String → String → Bool
  any_path [] method = false
  any_path (p ∷ ps) method = elim (L.match_string p method) [
    | none ↦ any_path ps method
    | some found ↦ found || any_path ps method
  ]

  pub match_paths : List PathPattern → String → L.Rand → Matched L.Rand
  match_paths [] method rand = unmatched rand
  match_paths (p ∷ ps) method rand =
      if any_path p.paths method then pick p.dest rand else match_paths ps method rand

  unfoldable pub match_path_pattern : Rule → Request → L.Rand → Matched L.Rand
  unfolding match_paths
  match_path_pattern r req rand = elim req.method [
    | none ↦ unmatched rand
    | some method ↦ match_paths r.path_pattern method rand
  ]

  pub match_headers : List HeaderPattern → Metadata → L.Rand → Matched L.Rand
  match_headers [] md rand = unmatched rand
  match_headers (p ∷ ps) md rand =
      if headers_match true p.headers md then pick p.dest rand else match_headers ps md rand

  unfoldable pub match_header_pattern : Rule → Request → L.Rand → Matched L.Rand
  unfolding match_headers
  match_header_pattern r req rand = elim req.metadata [
    | none ↦ unmatched rand
    | some md ↦ match_headers r.header_pattern md rand
  ]

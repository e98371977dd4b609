-- ===== src/Proxy/Rule/Matching.antt =====
-- When the matchers of boot/proxy_entry.go find a pattern, in terms of what the pattern says.
use rk_grpc.Prelude.{
  ℕ, zero, suc, String, ◌≡◌, refl, ◌≢◌, ◌↔◌, inl, inr, Bool, true, Option, none, some, List, [],
  ◌∷◌, eq_iff, if◌then◌else◌, length, get_elem?, get_elem?-some, All, Any, arith, Option-cases,
}
use rk_grpc.Proxy.Rule.{
  Libraries, RandLaws, HeaderPattern, PathPattern, IpPattern, Metadata, values, Matched, unmatched,
  matched, contains_slice, pick, any_cidr, match_ips, any_path, match_paths, headers_match,
  match_headers,
}

-- A value of the header is among those of the metadata.
abbrev pub Carries : Metadata → String × String → Type 0
Carries md (k, v) = (vs : List String) × (values k md ≡ some vs) × Any (λ s. s ≡ v) vs

pub contains_slice_iff :
    (vs : List String) (v : String) → (contains_slice (some vs) v ≡ true) ↔ Any (λ s. s ≡ v) vs
unfolding contains_slice
contains_slice_iff [] v = ground arith
contains_slice_iff (s ∷ vs) v = ground (arith, eq_iff s v, contains_slice_iff vs v)

contains_slice-values :
    (md : Metadata) (k v : String) → (contains_slice (values k md) v ≡ true) ↔ Carries md (k, v)
unfolding contains_slice
contains_slice-values md k v = elim (Option-cases (values k md)) [
  | inl gone ↦ rw gone (λ h. cc, λ c. cc (c.1))
  | inr (vs, there) ↦
      let (to, from) = contains_slice_iff vs v in
      (
        λ h. (vs, there, to (rw there at h)),
        λ (us, e, a). let same : vs ≡ us = cc in rw there (from (rw same a)),
      )
]

-- Every header of a pattern that matches is in the metadata, in whatever order the map is walked,
-- and a pattern whose headers are all there matches.
pub headers_match_iff :
    (hs : List (String × String)) (md : Metadata)
    → (headers_match true hs md ≡ true) ↔ All (Carries md) hs
unfolding headers_match
headers_match_iff [] md = (λ h. tt, λ h. refl)
headers_match_iff ((k, v) ∷ hs) md =
    ground (arith, contains_slice-values md k v, headers_match_iff hs md)

pub any_cidr_iff :
    (L : Libraries) (cs : List String) (ip : L.Ip)
    → (any_cidr L cs ip ≡ true)
      ↔ Any (λ c. (s : L.Subnet) × (L.parse_cidr c ≡ some s) × (L.contains s ip ≡ true)) cs
unfolding any_cidr
any_cidr_iff L [] ip = ground arith
any_cidr_iff L (c ∷ cs) ip = elim (Option-cases (L.parse_cidr c)) [
  | inl bad ↦ ground (arith, any_cidr_iff L cs ip)
  | inr (s, parses) ↦ ground (arith, any_cidr_iff L cs ip)
]

pub any_path_iff :
    (L : Libraries) (ps : List String) (method : String)
    → (any_path L ps method ≡ true) ↔ Any (λ p. L.match_string p method ≡ some true) ps
unfolding any_path
any_path_iff L [] method = ground arith
any_path_iff L (p ∷ ps) method = ground (arith, any_path_iff L ps method)

get_elem?-Any :
    (xs : List String) (i : ℕ) (d : String) → get_elem? xs i ≡ some d → Any (λ e. e ≡ d) xs
get_elem?-Any [] i d h = cc
get_elem?-Any (x ∷ xs) zero d h = inl (cc)
get_elem?-Any (x ∷ xs) (suc i) d h = inr (get_elem?-Any xs i d h)

-- The dest of the first pattern that passes the test.
abbrev pub first_dest :
    {P : Type 0} → (P → Bool) → (P → List String) → List P → Option (List String)
first_dest test dest [] = none
first_dest test dest (p ∷ ps) = if test p then some (dest p) else first_dest test dest ps

module _ (L : Libraries) where
  -- A draw from the dest of the pattern that was found.
  abbrev pub draw : Option (List String) → L.Rand → Matched L.Rand
  draw none rand = unmatched rand
  draw (some dest) rand = pick L dest rand

  pub match_ips-draw :
      (ps : List IpPattern) (ip : L.Ip) (rand : L.Rand)
      → match_ips L ps ip rand
        ≡ draw (first_dest (λ p. any_cidr L p.cidrs ip) (λ p. p.dest) ps) rand
  unfolding match_ips
  match_ips-draw [] ip rand = refl
  match_ips-draw (p ∷ ps) ip rand = ground (arith, match_ips-draw ps ip rand)

  pub match_paths-draw :
      (ps : List PathPattern) (method : String) (rand : L.Rand)
      → match_paths L ps method rand
        ≡ draw (first_dest (λ p. any_path L p.paths method) (λ p. p.dest) ps) rand
  unfolding match_paths
  match_paths-draw [] method rand = refl
  match_paths-draw (p ∷ ps) method rand = ground (arith, match_paths-draw ps method rand)

  pub match_headers-draw :
      (ps : List HeaderPattern) (md : Metadata) (rand : L.Rand)
      → match_headers L ps md rand
        ≡ draw (first_dest (λ p. headers_match true p.headers md) (λ p. p.dest) ps) rand
  unfolding match_headers
  match_headers-draw [] md rand = refl
  match_headers-draw (p ∷ ps) md rand = ground (arith, match_headers-draw ps md rand)

  -- What a draw can give: a member of the dest.
  pub pick-matched :
      (dest : List String) (rand rand' : L.Rand) (d : String)
      → pick L dest rand ≡ matched d rand'
      → Any (λ e. e ≡ d) dest
  unfolding pick
  pick-matched [] rand rand' d h = cc
  pick-matched (e ∷ es) rand rand' d h =
      elim (Option-cases (get_elem? (e ∷ es) (L.intn rand (length (e ∷ es))).0)) [
        | inl out ↦ absurd (ground arith)
        | inr (f, drawn) ↦ get_elem?-Any (e ∷ es) (L.intn rand (length (e ∷ es))).0 d (ground arith)
      ]

  pub pick_total :
      RandLaws L
      → (dest : List String) (rand : L.Rand) → dest ≢ []
      → (d : String) × (rand' : L.Rand) × (pick L dest rand ≡ matched d rand')
  unfolding pick
  pick_total laws [] rand h = absurd (h refl)
  pick_total laws (e ∷ es) rand h =
      let (d, drawn) =
        get_elem?-some (e ∷ es) (L.intn rand (length (e ∷ es))).0
          (laws.intn-lt rand (length (e ∷ es)) (omega arith)) in
      (d, (L.intn rand (length (e ∷ es))).1, ground arith)

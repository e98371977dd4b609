-- ===== src/Proxy/Director/Safety.antt =====
-- Where the director of boot/proxy_entry.go may send a call.
use rk_grpc.Prelude.{
  String, ◌≡◌, ◌≢◌, inl, inr, ◌⊎◌, Bool, true, some, List, [], ◌∷◌, str_eq, eq_iff, All, Any,
  Any-map, arith, Bool-cases, Option-cases,
}
use rk_grpc.Proxy.Rule.{
  Libraries, HeaderPattern, PathPattern, IpPattern, Rule, Request, Metadata, Matched, unmatched,
  matched, panicked, match_ip_pattern, match_path_pattern, match_header_pattern,
}
use rk_grpc.Proxy.Rule.Matching.{
  Carries, headers_match_iff, any_cidr_iff, any_path_iff, first_dest, draw, match_ips-draw,
  match_paths-draw, match_headers-draw, pick-matched,
}
use rk_grpc.Proxy.Director.{Directed, dials, dial_or, get_director}

module _ (L : Libraries) where
  -- The patterns that a request matches, and that name the destination.
  abbrev pub IpAllows : Request → String → IpPattern → Type 0
  IpAllows req d p =
      Any
        (λ c.
          (s : L.Subnet) × (L.parse_cidr c ≡ some s)
          × (L.contains s (L.parse_ip req.remote_ip) ≡ true))
        p.cidrs
      × Any (λ e. e ≡ d) p.dest

  abbrev pub PathAllows : Request → String → PathPattern → Type 0
  PathAllows req d p =
      (method : String) × (req.method ≡ some method)
      × Any (λ regex. L.match_string regex method ≡ some true) p.paths
      × Any (λ e. e ≡ d) p.dest

  abbrev pub HeaderAllows : Request → String → HeaderPattern → Type 0
  HeaderAllows req d p =
      (md : Metadata) × (req.metadata ≡ some md)
      × All (Carries md) p.headers
      × Any (λ e. e ≡ d) p.dest

  pub data Allows (r : Rule) (req : Request) (d : String) : Type 0 where
    by_ip : Any (IpAllows req d) r.ip_pattern → Allows r req d
    by_path : Any (PathAllows req d) r.path_pattern → Allows r req d
    by_header : Any (HeaderAllows req d) r.header_pattern → Allows r req d

  -- A draw comes from a pattern that passes the test.
  draw-matched :
      {P : Type 0} (test : P → Bool) (dest : P → List String) (ps : List P) (rand rand' : L.Rand)
      (d : String)
      → draw L (first_dest test dest ps) rand ≡ matched d rand'
      → Any (λ p. (test p ≡ true) × Any (λ e. e ≡ d) (dest p)) ps
  draw-matched test dest [] rand rand' d h = cc
  draw-matched test dest (p ∷ ps) rand rand' d h = elim (Bool-cases (test p)) [
    | inl here ↦ inl (here, pick-matched L (dest p) rand rand' d (rw here at h))
    | inr later ↦ inr (draw-matched test dest ps rand rand' d (rw later at h))
  ]

  match_ip_pattern-matched :
      (r : Rule) (req : Request) (rand rand' : L.Rand) (d : String)
      → match_ip_pattern L r req rand ≡ matched d rand'
      → Allows r req d
  unfolding match_ip_pattern
  match_ip_pattern-matched r req rand rand' d h = by_ip (
      Any-map (λ p (t, e). ((any_cidr_iff L p.cidrs (L.parse_ip req.remote_ip)).0 t, e))
        r.ip_pattern
        (draw-matched _ _ r.ip_pattern rand rand' d
          (rw (match_ips-draw L r.ip_pattern (L.parse_ip req.remote_ip) rand) at h)))

  match_path_pattern-matched :
      (r : Rule) (req : Request) (rand rand' : L.Rand) (d : String)
      → match_path_pattern L r req rand ≡ matched d rand'
      → Allows r req d
  unfolding match_path_pattern
  match_path_pattern-matched r req rand rand' d h = elim (Option-cases req.method) [
    | inl gone ↦ absurd (ground arith)
    | inr (method, there) ↦ by_path (
        Any-map (λ p (t, e). (method, there, (any_path_iff L p.paths method).0 t, e)) r.path_pattern
          (draw-matched _ _ r.path_pattern rand rand' d
            (rw (match_paths-draw L r.path_pattern method rand) at (rw there at h))))
  ]

  match_header_pattern-matched :
      (r : Rule) (req : Request) (rand rand' : L.Rand) (d : String)
      → match_header_pattern L r req rand ≡ matched d rand'
      → Allows r req d
  unfolding match_header_pattern
  match_header_pattern-matched r req rand rand' d h = elim (Option-cases req.metadata) [
    | inl gone ↦ absurd (ground arith)
    | inr (md, there) ↦ by_header (
        Any-map (λ p (t, e). (md, there, (headers_match_iff p.headers md).0 t, e)) r.header_pattern
          (draw-matched _ _ r.header_pattern rand rand' d
            (rw (match_headers-draw L r.header_pattern md rand) at (rw there at h))))
  ]

  dial_or-dials :
      (m : Matched L.Rand) (next : L.Rand → Directed L.Rand) {rand' : L.Rand} {d : String}
      → dial_or L m next ≡ dials d rand'
      → ((d ≢ "") × (m ≡ matched d rand')) ⊎ ((rand₁ : L.Rand) × (next rand₁ ≡ dials d rand'))
  unfolding dial_or
  dial_or-dials (unmatched rand₁) next h = inr (rand₁, h)
  dial_or-dials (matched e rand₁) next {d} h = elim (Bool-cases (str_eq e "")) [
    | inl empty ↦ inr (rand₁, rw empty at h)
    | inr full ↦ inl (ground (arith, eq_iff e "", eq_iff d ""), ground arith)
  ]
  dial_or-dials panicked next h = cc

  -- The director dials only a destination that is not empty and that is listed in a pattern which
  -- the request matches: a CIDR that holds the remote IP, a regular expression that matches the
  -- method, or headers that are all in the metadata.
  pub get_director-Allows :
      (r : Rule) (req : Request) (rand rand' : L.Rand) (d : String)
      → get_director L r req rand ≡ dials d rand'
      → (d ≢ "") × Allows r req d
  unfolding get_director
  get_director-Allows r req rand rand' d h =
      elim (dial_or-dials (match_ip_pattern L r req rand) _ h) [
        | inl (ne, at_ip) ↦ (ne, match_ip_pattern-matched r req rand rand' d at_ip)
        | inr (rand₁, h₁) ↦ elim (dial_or-dials (match_path_pattern L r req rand₁) _ h₁) [
          | inl (ne, at_path) ↦ (ne, match_path_pattern-matched r req rand₁ rand' d at_path)
          | inr (rand₂, h₂) ↦ elim (dial_or-dials (match_header_pattern L r req rand₂) _ h₂) [
            | inl (ne, at_header) ↦ (ne, match_header_pattern-matched r req rand₂ rand' d at_header)
            | inr (rand₃, h₃) ↦ absurd (cc h₃)
          ]
        ]
      ]

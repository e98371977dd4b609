-- ===== src/Proxy/Director/Routing.antt =====
-- Which destination the director of boot/proxy_entry.go chooses: the order of the three kinds of
-- rule, and what a rule without a usable destination does.
use rk_grpc.Prelude.{
  String, ◌≡◌, refl, ◌≢◌, Bool, true, Option, none, some, List, [], ◌∷◌, str_eq, eq_iff, All, Any,
  arith, Bool-cases, Option-cases, inl, inr,
}
use rk_grpc.Proxy.Rule.{
  Libraries, RandLaws, HeaderPattern, PathPattern, IpPattern, Rule, Request, Metadata, pick,
  any_cidr, any_path, headers_match, match_ip_pattern, match_path_pattern, match_header_pattern,
}
use rk_grpc.Proxy.Rule.Matching.{
  first_dest, draw, match_ips-draw, match_paths-draw, match_headers-draw, pick-matched, pick_total,
}
use rk_grpc.Proxy.Director.{Directed, dials, unimplemented, panics, dial_or, get_director}

-- A dest that can be drawn from, and holds no empty text.
abbrev pub IsUsable : List String → Type 0
IsUsable dest = (dest ≢ []) × All (λ d. d ≢ "") dest

pub record IsWellFormed (r : Rule) : Type 0 where
  pub ips : All (λ (p : IpPattern). IsUsable p.dest) r.ip_pattern
  pub paths : All (λ (p : PathPattern). IsUsable p.dest) r.path_pattern
  pub headers : All (λ (p : HeaderPattern). IsUsable p.dest) r.header_pattern

abbrev pub or_else : Option (List String) → Option (List String) → Option (List String)
or_else none other = other
or_else (some dest) other = some dest

or_else-none : (dest : Option (List String)) → or_else dest none ≡ dest
or_else-none none = refl
or_else-none (some dest) = refl

module _ (L : Libraries) where
  -- The dest of the first pattern of each kind that the request matches.
  abbrev pub ip_dest : Rule → Request → Option (List String)
  ip_dest r req =
      first_dest (λ (p : IpPattern). any_cidr L p.cidrs (L.parse_ip req.remote_ip)) (λ p. p.dest)
        r.ip_pattern

  abbrev pub path_dest : Rule → Option String → Option (List String)
  path_dest r none = none
  path_dest r (some method) =
      first_dest (λ (p : PathPattern). any_path L p.paths method) (λ p. p.dest) r.path_pattern

  abbrev pub header_dest : Rule → Option Metadata → Option (List String)
  header_dest r none = none
  header_dest r (some md) =
      first_dest (λ (p : HeaderPattern). headers_match true p.headers md) (λ p. p.dest)
        r.header_pattern

  -- Rules by address come before rules by path, and those before rules by header.
  abbrev pub route : Rule → Request → Option (List String)
  route r req =
      or_else (ip_dest r req) (or_else (path_dest r req.method) (header_dest r req.metadata))

  -- The director keeps to the route: it dials a member of the dest, or it refuses the call.
  abbrev pub Follows : Option (List String) → Directed L.Rand → Type 0
  Follows none (unimplemented rand) = Unit
  Follows (some dest) (dials d rand) = Any (λ e. e ≡ d) dest
  Follows _ _ = ⊥

  first_dest-IsUsable :
      {P : Type 0} (test : P → Bool) (dest : P → List String) (ps : List P) (ds : List String)
      → All (λ p. IsUsable (dest p)) ps
      → first_dest test dest ps ≡ some ds
      → IsUsable ds
  first_dest-IsUsable test dest [] ds a h = cc
  first_dest-IsUsable test dest (p ∷ ps) ds (u, us) h = elim (Bool-cases (test p)) [
    | inl here ↦ let same : dest p ≡ ds = cc (rw here at h) in rw (← same) u
    | inr later ↦ first_dest-IsUsable test dest ps ds us (rw later at h)
  ]

  All-Any :
      (P : String → Type 0) (d : String) (ds : List String) → All P ds → Any (λ e. e ≡ d) ds → P d
  All-Any P d [] a h = elim h [ ]
  All-Any P d (e ∷ es) (p, ps) (inl same) = rw same at p
  All-Any P d (e ∷ es) (p, ps) (inr h) = All-Any P d es ps h

  -- One stage of the director, at a draw from a usable dest.
  dial_or-Follows :
      RandLaws L
      → (first rest : Option (List String)) (rand : L.Rand) (next : L.Rand → Directed L.Rand)
      → ((ds : List String) → first ≡ some ds → IsUsable ds)
      → ((rand' : L.Rand) → Follows rest (next rand'))
      → Follows (or_else first rest) (dial_or L (draw L first rand) next)
  unfolding dial_or
  dial_or-Follows laws none rest rand next u k = k rand
  dial_or-Follows laws (some ds) rest rand next u k =
      let (filled, full) = u ds refl in
      let (d, rand', drawn) = pick_total L laws ds rand filled in
      let member = pick-matched L ds rand rand' d drawn in
      elim (Bool-cases (str_eq d "")) [
        | inl empty ↦ absurd (All-Any (λ e. e ≢ "") d ds full member ((eq_iff d "").0 empty))
        | inr there ↦ rw (drawn, there) member
      ]

  -- The stages, as draws.
  pub match_path_pattern-draw :
      (r : Rule) (req : Request) (rand : L.Rand)
      → match_path_pattern L r req rand ≡ draw L (path_dest r req.method) rand
  unfolding match_path_pattern
  match_path_pattern-draw r req rand = elim (Option-cases req.method) [
    | inl gone ↦ rw gone
    | inr (method, there) ↦ rw there (match_paths-draw L r.path_pattern method rand)
  ]

  pub match_header_pattern-draw :
      (r : Rule) (req : Request) (rand : L.Rand)
      → match_header_pattern L r req rand ≡ draw L (header_dest r req.metadata) rand
  unfolding match_header_pattern
  match_header_pattern-draw r req rand = elim (Option-cases req.metadata) [
    | inl gone ↦ rw gone
    | inr (md, there) ↦ rw there (match_headers-draw L r.header_pattern md rand)
  ]

  pub match_ip_pattern-draw :
      (r : Rule) (req : Request) (rand : L.Rand)
      → match_ip_pattern L r req rand ≡ draw L (ip_dest r req) rand
  unfolding match_ip_pattern
  match_ip_pattern-draw r req rand = match_ips-draw L r.ip_pattern (L.parse_ip req.remote_ip) rand

  path_dest-IsUsable :
      (r : Rule) (method : Option String) (ds : List String)
      → IsWellFormed r
      → path_dest r method ≡ some ds
      → IsUsable ds
  path_dest-IsUsable r none ds w h = cc
  path_dest-IsUsable r (some method) ds w h = first_dest-IsUsable _ _ r.path_pattern ds w.paths h

  header_dest-IsUsable :
      (r : Rule) (md : Option Metadata) (ds : List String)
      → IsWellFormed r
      → header_dest r md ≡ some ds
      → IsUsable ds
  header_dest-IsUsable r none ds w h = cc
  header_dest-IsUsable r (some md) ds w h = first_dest-IsUsable _ _ r.header_pattern ds w.headers h

  -- The director keeps to the route where the dest of the first match of each kind is usable.
  pub get_director-route :
      (r : Rule) (req : Request) (rand : L.Rand)
      → RandLaws L
      → ((ds : List String) → ip_dest r req ≡ some ds → IsUsable ds)
      → ((ds : List String) → path_dest r req.method ≡ some ds → IsUsable ds)
      → ((ds : List String) → header_dest r req.metadata ≡ some ds → IsUsable ds)
      → Follows (route r req) (get_director L r req rand)
  unfolding get_director
  get_director-route r req rand laws by_ip by_path by_header =
      rw (match_ip_pattern-draw r req rand) (
        dial_or-Follows laws (ip_dest r req) _ rand _ by_ip (λ rand₁.
          rw (match_path_pattern-draw r req rand₁) (
            dial_or-Follows laws (path_dest r req.method) (header_dest r req.metadata) rand₁ _
              by_path
              (λ rand₂. rw (match_header_pattern-draw r req rand₂) (
                rw (or_else-none (header_dest r req.metadata)) at (
                  dial_or-Follows laws (header_dest r req.metadata) none rand₂
                    (λ rand₃. unimplemented rand₃) by_header (λ rand₃. tt)))))))

  -- With rules whose dest lists are not empty and hold no empty text, the director never panics: it
  -- dials a member of the dest of the first pattern that the request matches, patterns by address
  -- before those by path and those before the ones by header, and it answers Unimplemented exactly
  -- when no pattern matches.
  pub get_director-Follows :
      (r : Rule) (req : Request) (rand : L.Rand)
      → RandLaws L
      → IsWellFormed r
      → Follows (route r req) (get_director L r req rand)
  get_director-Follows r req rand laws w =
      get_director-route r req rand laws (λ ds h. first_dest-IsUsable _ _ r.ip_pattern ds w.ips h)
        (λ ds h. path_dest-IsUsable r req.method ds w h)
        (λ ds h. header_dest-IsUsable r req.metadata ds w h)

  dial_or-panics :
      (first rest : Option (List String)) (rand : L.Rand) (next : L.Rand → Directed L.Rand)
      → or_else first rest ≡ some []
      → ((rand' : L.Rand) → rest ≡ some [] → next rand' ≡ panics)
      → dial_or L (draw L first rand) next ≡ panics
  unfolding dial_or pick
  dial_or-panics none rest rand next h k = k rand h
  dial_or-panics (some []) rest rand next h k = refl
  dial_or-panics (some (d ∷ ds)) rest rand next h k = absurd (ground arith)

  -- Where the first pattern that the request matches has an empty dest, the director panics, in
  -- `rand.Intn(0)`, whatever the random source.
  pub get_director-panics :
      (r : Rule) (req : Request) (rand : L.Rand)
      → route r req ≡ some []
      → get_director L r req rand ≡ panics
  unfolding get_director
  get_director-panics r req rand h = rw (match_ip_pattern-draw r req rand) (
      dial_or-panics (ip_dest r req) _ rand _ h (λ rand₁ h₁.
        rw (match_path_pattern-draw r req rand₁) (
          dial_or-panics (path_dest r req.method) (header_dest r req.metadata) rand₁ _ h₁
            (λ rand₂ h₂. rw (match_header_pattern-draw r req rand₂) (
              dial_or-panics (header_dest r req.metadata) none rand₂ (λ rand₃. unimplemented rand₃)
                (rw (or_else-none (header_dest r req.metadata)) h₂)
                (λ rand₃ h₃. absurd (cc h₃)))))))

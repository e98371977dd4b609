-- ===== src/Proxy/Director.antt =====
-- The director that the rules give: `GetDirector`, boot/proxy_entry.go.
pub mod Safety
pub mod Routing
use rk_grpc.Prelude.{String, Bool, str_eq, if◌then◌else◌}
use rk_grpc.Proxy.Rule.{
  Libraries, Rule, Request, Matched, unmatched, matched, panicked, match_ip_pattern,
  match_path_pattern, match_header_pattern,
}

-- What the director does: it dials a destination and returns what `grpc.DialContext` gives, with
-- the call's own context, or it returns the Unimplemented status.
pub data Directed (R : Type 0) : Type 0 where
  dials : String → R → Directed R
  unimplemented : R → Directed R
  panics : Directed R

module _ (L : Libraries) where
  -- `if matched, dest := …; matched && len(dest) > 0 { dial }`, with what follows it.
  unfoldable pub dial_or : Matched L.Rand → (L.Rand → Directed L.Rand) → Directed L.Rand
  dial_or (unmatched rand) next = next rand
  dial_or (matched dest rand) next = if str_eq dest "" then next rand else dials dest rand
  dial_or panicked next = panics

  unfoldable pub get_director : Rule → Request → L.Rand → Directed L.Rand
  unfolding dial_or
  get_director r req rand = dial_or (match_ip_pattern L r req rand) (λ rand₁.
      dial_or (match_path_pattern L r req rand₁)
        (λ rand₂. dial_or (match_header_pattern L r req rand₂) (λ rand₃. unimplemented rand₃)))

-- ===== src/Proxy/Rule/Order.antt =====
-- The headers of a pattern are a Go map, which boot/proxy_entry.go walks in no fixed order.
use mathlib.Core.List.{Perm, Permᴰ}
use mathlib.Core.Logic.{∥∥₁_elim}
use mathlib.Core.Bool.{Bool-set}
use rk_grpc.Prelude.{
  String, ◌≡◌, refl, Bool, true, List, ◌∷◌, ◌∙◌, ap, arith, ◌&&◌, Bool-cases, inl, inr,
}
use rk_grpc.Proxy.Rule.{Metadata, contains_slice, values, headers_match}

-- The metadata has the value of one header.
carried : Metadata → String × String → Bool
carried md (k, v) = contains_slice (values k md) v

headers_match-cons :
    (md : Metadata) (h : String × String) (hs : List (String × String))
    → headers_match true (h ∷ hs) md ≡ (carried md h && headers_match true hs md)
unfolding headers_match carried
headers_match-cons md (k, v) hs = elim (Bool-cases (contains_slice (values k md) v)) [
  | inl here ↦ rw here
  | inr gone ↦ rw gone
]

headers_match-Permᴰ :
    (md : Metadata) {hs gs : List (String × String)}
    → Permᴰ hs gs
    → headers_match true hs md ≡ headers_match true gs md
headers_match-Permᴰ md Permᴰ.nil = refl
headers_match-Permᴰ md (Permᴰ.cons {a = a} {b = b} {l₁ = l₁} {l₂ = l₂} e p) =
    let same : carried md a ≡ carried md b = ap (carried md) e in
    rw (headers_match-cons md a l₁, headers_match-cons md b l₂, same, headers_match-Permᴰ md p)
headers_match-Permᴰ md (Permᴰ.swap {a = a} {b = b} {a' = a'} {b' = b'} {l = l} e f) = ground (
  arith,
  headers_match-cons md a (b ∷ l),
  headers_match-cons md b l,
  headers_match-cons md a' (b' ∷ l),
  headers_match-cons md b' l,
  ap (carried md) e,
  ap (carried md) f,
)
headers_match-Permᴰ md (Permᴰ.trans p q) = headers_match-Permᴰ md p ∙ headers_match-Permᴰ md q

-- Whether a pattern matches does not depend on the order in which its headers are walked.
pub headers_match-Perm :
    (md : Metadata) {hs gs : List (String × String)}
    → Perm hs gs
    → headers_match true hs md ≡ headers_match true gs md
headers_match-Perm md p = ∥∥₁_elim p (Bool-set _ _) (headers_match-Permᴰ md)

-- ===== src/Middleware/Chain/Order.antt =====
-- The order of the interceptors that RegisterGrpcEntryYAML, boot/grpc_entry.go, adds.
use rk_grpc.Prelude.{
  ◌≡◌, refl, sym, ◌∙◌, append-nil, append_assoc, Bool, true, false, List, [], ◌∷◌, ◌++◌,
  if◌then◌else◌,
}
use rk_grpc.Middleware.Chain.{
  Kind, logging, panics, prom, trace, jwt, meta, auth, timeout, rate_limit, MiddlewareConfig,
  add_if, unary_interceptors,
}

-- The middleware that makes interceptors, in the order of the interceptors.
abbrev pub all_kinds : List Kind
all_kinds = logging ∷ panics ∷ prom ∷ trace ∷ jwt ∷ meta ∷ auth ∷ timeout ∷ rate_limit ∷ []

abbrev pub is_enabled : MiddlewareConfig → Kind → Bool
is_enabled m logging = m.logging_enabled
is_enabled m panics = true
is_enabled m prom = m.prom_enabled
is_enabled m trace = m.trace_enabled
is_enabled m jwt = m.jwt_enabled
is_enabled m meta = m.meta_enabled
is_enabled m auth = m.auth_enabled
is_enabled m timeout = m.timeout_enabled
is_enabled m rate_limit = m.rate_limit_enabled

abbrev pub enabled_of : MiddlewareConfig → List Kind → List Kind
enabled_of m [] = []
enabled_of m (k ∷ ks) = if is_enabled m k then k ∷ enabled_of m ks else enabled_of m ks

add_if-append :
    (enabled : Bool) (k : Kind) (ks ls : List Kind)
    → add_if enabled k ks ++ ls ≡ ks ++ (if enabled then k ∷ ls else ls)
unfolding add_if
add_if-append true k ks ls = append_assoc ks (k ∷ []) ls
add_if-append false k ks ls = refl

-- The interceptors are those of the enabled middleware, in this order.
pub unary_interceptors-enabled :
    (m : MiddlewareConfig) → unary_interceptors m ≡ enabled_of m all_kinds
unfolding unary_interceptors
unary_interceptors-enabled m =
    sym (append-nil (unary_interceptors m))
    ∙ add_if-append m.rate_limit_enabled rate_limit _ _
    ∙ add_if-append m.timeout_enabled timeout _ _
    ∙ add_if-append m.auth_enabled auth _ _
    ∙ add_if-append m.meta_enabled meta _ _
    ∙ add_if-append m.jwt_enabled jwt _ _
    ∙ add_if-append m.trace_enabled trace _ _
    ∙ add_if-append m.prom_enabled prom _ _
    ∙ append_assoc (add_if m.logging_enabled logging []) (panics ∷ []) _
    ∙ add_if-append m.logging_enabled logging [] _

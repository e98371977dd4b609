-- ===== src/Boot/HttpHeader.antt =====
-- An http.Header, whose methods the handlers of boot/gw_server_options.go call: a map from
-- canonical names to lists of values, as an association list. textproto.CanonicalMIMEHeaderKey,
-- which the methods apply to a name, is a parameter.
pub mod Values
use rk_grpc.Prelude.{String, List, [], ◌∷◌, ◌++◌, str_eq, if◌then◌else◌}

abbrev pub Header : Type 0
Header = List (String × List String)

-- The entry of a name is given other values, or made.
unfoldable pub put_values : String → (List String → List String) → Header → Header
put_values k f [] = (k, f []) ∷ []
put_values k f ((j, vs) ∷ h) = if str_eq j k then (j, f vs) ∷ h else (j, vs) ∷ put_values k f h

module _ (canonical : String → String) where
  -- `Add`
  unfoldable pub add_value : String → String → Header → Header
  unfolding put_values
  add_value k v h = put_values (canonical k) (λ vs. vs ++ v ∷ []) h

  -- `Set`
  unfoldable pub set_value : String → String → Header → Header
  unfolding put_values
  set_value k v h = put_values (canonical k) (λ vs. v ∷ []) h

  -- `Del`: the values go, and an entry without values is as good as none.
  unfoldable pub del_values : String → Header → Header
  unfolding put_values
  del_values k h = put_values (canonical k) (λ vs. []) h

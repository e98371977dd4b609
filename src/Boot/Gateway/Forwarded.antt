-- ===== src/Boot/Gateway/Forwarded.antt =====
-- What the interceptors read of a call that came through the gateway of boot/gw_server_options.go.
use rk_grpc.Prelude.{
  String, ◌≡◌, refl, ap, ◌∙◌, Option, none, some, List, [], ◌∷◌, ◌++◌, if◌then◌else◌,
}
use rk_grpc.Middleware.Address.{
  values_of, name_loopback, split_first, get_remote_address_set_from_meta,
}
use rk_grpc.Middleware.Info.{first_or_empty, get_gw_info}
use rk_grpc.Boot.Gateway.{HttpRequest, or_default, pattern_entry, rk_gw_metadata_builder}

-- The first value that the client has sent, or the gateway's own.
abbrev pub client_or : List String → String → String
client_or [] own = own
client_or (v ∷ vs) own = v

first_or_empty-append :
    (vs : List String) (own : String) → first_or_empty (vs ++ own ∷ []) ≡ client_or vs own
unfolding first_or_empty
first_or_empty-append [] own = refl
first_or_empty-append (v ∷ vs) own = refl

split_first-append :
    (split : String → String × String) (vs : List String) (own : String)
    → split_first split (vs ++ own ∷ []) ≡ split (client_or vs own)
unfolding split_first
split_first-append split [] own = refl
split_first-append split (v ∷ vs) own = refl

first_or_empty-pattern :
    (vs : List String) (pattern : Option String)
    → first_or_empty (vs ++ values_of "x-forwarded-pattern" (pattern_entry pattern))
      ≡ client_or vs (or_default pattern "")
unfolding first_or_empty pattern_entry values_of or_default
first_or_empty-pattern [] none = refl
first_or_empty-pattern (v ∷ vs) none = refl
first_or_empty-pattern vs (some pattern) = first_or_empty-append vs pattern

-- metadata.Join, with the documented order of the values of a key.
module _
    (join : List (String × List String) → List (String × List String) → List (String × List String))
    (values_of-join : (k : String) (a b : List (String × List String))
      → values_of k (join a b) ≡ values_of k a ++ values_of k b) where
  read_first :
      (k own : String) (headers gateway : List (String × List String))
      → values_of k gateway ≡ own ∷ []
      → first_or_empty (values_of k (join headers gateway)) ≡ client_or (values_of k headers) own
  read_first k own headers gateway one =
      rw (values_of-join k headers gateway)
        (rw one (first_or_empty-append (values_of k headers) own))

  -- Where the metadata of a call is that of the client's headers joined with that of the gateway, in
  -- this order, the interceptors read the request's method, route, scheme, agent and address, each
  -- unless the client has sent a header of that name: then they read the client's value.
  pub forwarded_or_spoofed :
      (split : String → String × String) (headers : List (String × List String)) (req : HttpRequest)
      → let md = join headers (rk_gw_metadata_builder req) in
        (get_gw_info md ≡ record {
          method = client_or (values_of "x-forwarded-method" headers) req.method;
          path = client_or (values_of "x-forwarded-pattern" headers) (or_default req.pattern "");
          scheme =
              client_or
                (values_of "x-forwarded-scheme" headers)
                (if req.has_tls then "https" else "http");
          user_agent = client_or (values_of "x-forwarded-user-agent" headers) req.user_agent;
        })
        × (get_remote_address_set_from_meta split md ≡ (
            let (ip, port) =
              split (client_or (values_of "x-forwarded-remote-addr" headers) req.remote_addr) in
            (name_loopback ip, port)))
  unfolding get_gw_info get_remote_address_set_from_meta rk_gw_metadata_builder values_of
  forwarded_or_spoofed split headers req =
      let gateway = rk_gw_metadata_builder req in
      let scheme : String = if req.has_tls then "https" else "http" in
      let m = read_first "x-forwarded-method" req.method headers gateway refl in
      let s = read_first "x-forwarded-scheme" scheme headers gateway refl in
      let u = read_first "x-forwarded-user-agent" req.user_agent headers gateway refl in
      let joined = values_of-join "x-forwarded-pattern" headers gateway in
      let p =
        ap first_or_empty joined
        ∙ first_or_empty-pattern (values_of "x-forwarded-pattern" headers) req.pattern in
      let addr =
        ap (split_first split) (values_of-join "x-forwarded-remote-addr" headers gateway)
        ∙ split_first-append split (values_of "x-forwarded-remote-addr" headers) req.remote_addr in
      (
        (λ i. record { method = m i; path = p i; scheme = s i; user_agent = u i }),
        ap (λ (r : String × String). (name_loopback r.0, r.1)) addr,
      )

-- ===== src/Middleware/Address/Laws.antt =====
-- Of the address of the caller, middleware/common.go: which source it is taken from.
use rk_grpc.Prelude.{String, ◌≡◌, refl, ◌≢◌, some, List, [], str_eq, if_cases, ne_of_str_eq}
use rk_grpc.Middleware.Address.{
  Incoming, values_of, or_nil, name_loopback, split_first, get_remote_address_set_from_meta,
  peer_address, forwarded_ip, get_remote_address_set,
}

name_loopback_ne : (ip : String) → name_loopback ip ≢ "::1"
unfolding name_loopback
name_loopback_ne ip =
    if_cases (λ x. x ≢ "::1") (str_eq ip "::1") (λ same. ne_of_str_eq "localhost" "::1" refl)
      (λ other. ne_of_str_eq ip "::1" other)

module _ (split_host_port : String → String × String) where
  -- The address that is reported is never the loopback address "::1", whatever the source.
  get_remote_address_set-ne-loopback :
      (ctx : Incoming) → (get_remote_address_set split_host_port ctx).0 ≢ "::1"
  unfolding get_remote_address_set get_remote_address_set_from_meta
  get_remote_address_set-ne-loopback ctx =
      if_cases {A = String × String × String} (λ x. x.0 ≢ "::1")
        (str_eq (get_remote_address_set_from_meta split_host_port (or_nil ctx.metadata)).0 "")
        (λ none. name_loopback_ne (
          forwarded_ip (values_of "x-forwarded-for" (or_nil ctx.metadata))
            (peer_address split_host_port ctx.peer).0))
        (λ there.
          name_loopback_ne
            (split_first split_host_port
              (values_of "x-forwarded-remote-addr" (or_nil ctx.metadata))).0)

  -- Where no header carries an address and the peer's address does not split into host and port,
  -- the address of the peer is lost: IP and port are reported empty.
  get_remote_address_set-unsplit :
      (md : List (String × List String)) (network address : String)
      → values_of "x-forwarded-remote-addr" md ≡ []
      → values_of "x-forwarded-for" md ≡ []
      → split_host_port address ≡ ("", "")
      → get_remote_address_set split_host_port
          (record { metadata = some md; peer = some (network, address) })
        ≡ ("", "", network)
  unfolding get_remote_address_set get_remote_address_set_from_meta split_first peer_address
      forwarded_ip name_loopback
  get_remote_address_set-unsplit md network address no_remote no_forwarded unsplit =
      rw (no_remote, get_remote_address_set, no_forwarded, unsplit) refl

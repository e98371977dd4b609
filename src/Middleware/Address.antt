-- ===== src/Middleware/Address.antt =====
-- The address of the caller, GetRemoteAddressSet and GetRemoteAddressSetFromMeta of
-- middleware/common.go. net.SplitHostPort is a parameter: its host and port, empty on an error,
-- which the code does not look at.
pub mod Laws
use rk_grpc.Prelude.{String, Option, none, some, List, [], ◌∷◌, str_eq, if◌then◌else◌}

-- What the function reads of the context: the incoming metadata, whose keys are in lower case, and
-- the peer's network and address.
pub record Incoming : Type 0 where
  pub metadata : Option (List (String × List String))
  pub peer : Option (String × String)

-- `md[k]`
unfoldable pub values_of : String → List (String × List String) → List String
values_of k [] = []
values_of k ((j, vs) ∷ md) = if str_eq j k then vs else values_of k md

-- `metadata.FromIncomingContext(ctx)`, its first result
abbrev pub or_nil : Option (List (String × List String)) → List (String × List String)
or_nil none = []
or_nil (some md) = md

-- `if ip == "::1" { ip = "localhost" }`
unfoldable pub name_loopback : String → String
name_loopback ip = if str_eq ip "::1" then "localhost" else ip

-- `forwardedRemoteIPList`
unfoldable pub forwarded_ip : List String → String → String
unfolding name_loopback
forwarded_ip [] ip = ip
forwarded_ip (forwarded ∷ fs) ip = name_loopback forwarded

module _ (split_host_port : String → String × String) where
  -- `ip, port, _ = net.SplitHostPort(v[0])`, where there is such a value
  unfoldable pub split_first : List String → String × String
  split_first [] = ("", "")
  split_first (v ∷ vs) = split_host_port v

  unfoldable pub get_remote_address_set_from_meta : List (String × List String) → String × String
  unfolding split_first name_loopback
  get_remote_address_set_from_meta md =
      let (ip, port) = split_first (values_of "x-forwarded-remote-addr" md) in
      (name_loopback ip, port)

  -- The address and the network of the peer, or the values set before.
  unfoldable pub peer_address : Option (String × String) → String × String × String
  peer_address none = ("0.0.0.0", "0", "")
  peer_address (some (network, address)) =
      let (ip, port) = split_host_port address in (ip, port, network)

  unfoldable pub get_remote_address_set : Incoming → String × String × String
  unfolding get_remote_address_set_from_meta peer_address forwarded_ip name_loopback
  get_remote_address_set ctx =
      let (ip, port) = get_remote_address_set_from_meta (or_nil ctx.metadata) in
      if str_eq ip ""
      then (let (peer_ip, peer_port, net_type) = peer_address ctx.peer in
          (
            name_loopback
                (forwarded_ip (values_of "x-forwarded-for" (or_nil ctx.metadata)) peer_ip),
            peer_port,
            net_type,
          ))
      else (ip, port, "")

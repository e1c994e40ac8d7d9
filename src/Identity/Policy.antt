-- ===== src/Identity/Policy.antt =====
-- src/vpn_identity.rs, `VpnDataPolicy` and `VpnIdentityLimits`: the addresses and networks of an
-- identity, and its rates. A `HashSet` that only detects a second insertion is `has_repeat`.
use flowweave.Prelude.{
  ◌*◌, ℕ, ltb, ◌==◌, Bool, false, not, ◌&&◌, ◌||◌, Option, none, some, List, [], ◌∷◌, length, any,
  Result, ok, ◌>>◌, fail_if, is_none,
}
use flowweave.Identity.Errors.{
  address_family_unavailable, duplicate_destination_network, too_many_destination_networks,
  vpn_max_destination_networks_per_identity, invalid_limits, invalid_client_address,
  vpn_default_max_reassembly_bytes, missing_client_address, vpn_max_bytes_per_second,
  vpn_max_packets_per_second, vpn_max_connections_per_identity, VpnIdentityError,
}
use flowweave.Identity.Network.{network_eq, contains, VpnIpNetwork}
use flowweave.Control.{valid_ipv4_tunnel_address, valid_ipv6_tunnel_address}
use flowweave.Packet.{IpAddr, vpn_max_ip_packet_len}

pub record VpnDataPolicy : Type 0 where
  pub client_ipv4 : Option ℕ
  pub client_ipv6 : Option ℕ
  pub allowed_destinations : List VpnIpNetwork

-- `Option::is_some_and`.
abbrev pub is_some_and : Option ℕ → (ℕ → Bool) → Bool
is_some_and none test = false
is_some_and (some a) test = test a

-- Some `insert` of the elements, in their order, finds its element in the set.
unfoldable pub has_repeat {ℓ} : {A : Type ℓ} → (A → A → Bool) → List A → Bool
has_repeat same [] = false
has_repeat same (x ∷ xs) = any (same x) xs || has_repeat same xs

-- A network of a family in which the client has no address.
unfoldable pub lacks_family : Option ℕ → Option ℕ → VpnIpNetwork → Bool
lacks_family client_ipv4 client_ipv6 (VpnIpNetwork.v4 network prefix_len) = is_none client_ipv4
lacks_family client_ipv4 client_ipv6 (VpnIpNetwork.v6 network prefix_len) = is_none client_ipv6

-- `VpnDataPolicy::new`.
unfoldable pub data_policy :
    Option ℕ → Option ℕ → List VpnIpNetwork → Result VpnDataPolicy VpnIdentityError
data_policy client_ipv4 client_ipv6 allowed_destinations = do
  fail_if (is_none client_ipv4 && is_none client_ipv6) missing_client_address
  fail_if
      (is_some_and client_ipv4 (λ a. not (valid_ipv4_tunnel_address a))
        || is_some_and client_ipv6 (λ a. not (valid_ipv6_tunnel_address a)))
      invalid_client_address
  fail_if (ltb vpn_max_destination_networks_per_identity (length allowed_destinations))
      too_many_destination_networks
  fail_if (has_repeat network_eq allowed_destinations) duplicate_destination_network
  fail_if (any (lacks_family client_ipv4 client_ipv6) allowed_destinations)
      address_family_unavailable
  ok (record {
    client_ipv4 = client_ipv4;
    client_ipv6 = client_ipv6;
    allowed_destinations = allowed_destinations;
  })

unfoldable pub permits_source : VpnDataPolicy → IpAddr → Bool
permits_source policy (IpAddr.v4 source) = is_some_and (policy.client_ipv4) (λ a. a == source)
permits_source policy (IpAddr.v6 source) = is_some_and (policy.client_ipv6) (λ a. a == source)

unfoldable pub allows_destination : VpnDataPolicy → IpAddr → Bool
allows_destination policy destination =
    any (λ network. contains network destination) (policy.allowed_destinations)

pub record VpnIdentityLimits : Type 0 where
  pub max_connections : ℕ
  pub max_packets_per_second : ℕ
  pub max_bytes_per_second : ℕ
  pub max_reassembly_bytes : ℕ

-- `VpnIdentityLimits::validate`.
unfoldable pub validate_limits : VpnIdentityLimits → Result (Unit {0}) VpnIdentityError
validate_limits l =
    fail_if
      (l.max_connections == 0
        || ltb vpn_max_connections_per_identity (l.max_connections)
        || l.max_packets_per_second == 0
        || ltb vpn_max_packets_per_second (l.max_packets_per_second)
        || l.max_bytes_per_second == 0
        || ltb vpn_max_bytes_per_second (l.max_bytes_per_second)
        || ltb (l.max_reassembly_bytes) vpn_max_ip_packet_len
        || ltb vpn_default_max_reassembly_bytes (l.max_reassembly_bytes))
      invalid_limits

-- `VpnIdentityLimits::new`.
unfoldable pub identity_limits : ℕ → ℕ → ℕ → ℕ → Result VpnIdentityLimits VpnIdentityError
identity_limits connections packets bytes reassembly = do
  let limits : VpnIdentityLimits = record {
    max_connections = connections;
    max_packets_per_second = packets;
    max_bytes_per_second = bytes;
    max_reassembly_bytes = reassembly;
  }
  validate_limits limits
  ok limits

-- `VpnIdentityLimits::default`.
abbrev pub default_limits : VpnIdentityLimits
default_limits = record {
  max_connections = 1;
  max_packets_per_second = 100_000;
  max_bytes_per_second = 128 * 1024 * 1024;
  max_reassembly_bytes = vpn_default_max_reassembly_bytes;
}

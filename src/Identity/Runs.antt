-- ===== src/Identity/Runs.antt =====
-- Runs of the identity registry, and the theorems at concrete inputs.
use flowweave.Identity.Policy.{default_limits}
use flowweave.Identity.Registry.{validate_identity_key, client_id_byte}
use flowweave.Identity.Policy.{has_repeat, data_policy, lacks_family, validate_limits}
use flowweave.Control.{valid_ipv4_tunnel_address}
use flowweave.Control.{valid_ipv4_tunnel_address}
use flowweave.Identity.Registry.{
  enroll_all, enroll, validate_identity, validate_identity_key, client_id_byte, same_address,
  register, find_key, register_fingerprints, taken, insert_address,
}
use flowweave.Identity.Policy.{has_repeat, validate_limits}
use flowweave.Control.{valid_ipv4_tunnel_address}
use flowweave.Identity.Registry.{
  enroll_all, enroll, validate_identity, validate_identity_key, client_id_byte, same_address,
  register, find_key, register_fingerprints, taken, insert_address,
}
use flowweave.Identity.Policy.{has_repeat, validate_limits}
use flowweave.Identity.Network.{VpnIpNetwork, network_v4, network_v6, contains}
use flowweave.Identity.Errors.{duplicate_client_address}
use flowweave.Prelude.{
  ℕ, zero, suc, ◌-◌, ◌/◌, ◌^◌, replicate, IsByte, ◌≡◌, refl, ◌↔◌, arith, true, false, none, some,
  List, [], ◌∷◌, All, list_eq, ok, err,
}
use flowweave.Packet.{IpAddr}
use flowweave.Identity.Network.Prefix.{contains-network_v4, contains-network_v6}
use flowweave.Identity.Fingerprint.{parse_hex, to_hex, parse_hex-to_hex}
use flowweave.Identity.Policy.{permits_source}
use flowweave.Identity.Registry.{
  VpnIdentity, identity_new, VpnIdentityRegistry, registry_new, authorize, nth,
}
use flowweave.Identity.Registry.Search.{authorize_by_search, authorize-authorize_by_search}
use flowweave.Identity.Registry.Isolation.{permits_source-apart}
use flowweave.Identity.Network

abbrev pub print_a : List ℕ
print_a = replicate 32 7

abbrev pub print_b : List ℕ
print_b = replicate 32 9

-- 10.77.0.2, for 192.0.2.0/24.
abbrev pub client_a : VpnIdentity
client_a = record {
  client_id = b'a' ∷ [];
  fingerprints = print_a ∷ [];
  enabled = true;
  policy = record {
    client_ipv4 = some 0x0a4d_0002;
    client_ipv6 = none;
    allowed_destinations = VpnIpNetwork.v4 0xc000_0200 24 ∷ [];
  };
  limits = default_limits;
}

-- 10.77.0.3, not enabled.
abbrev pub client_b : VpnIdentity
client_b = record client_a {
  client_id = b'b' ∷ [];
  fingerprints = print_b ∷ [];
  enabled = false;
  policy = record { client_ipv4 = some 0x0a4d_0003; client_ipv6 = none; allowed_destinations = [] };
}

-- The server is 10.77.0.1.
abbrev pub two_clients : VpnIdentityRegistry
two_clients = record {
  server_ipv4 = some 0x0a4d_0001;
  server_ipv6 = none;
  identities = client_a ∷ client_b ∷ [];
  by_client_id = (b'b' ∷ [], 1) ∷ (b'a' ∷ [], 0) ∷ [];
  by_fingerprint = (print_b, 1) ∷ (print_a, 0) ∷ [];
}

two_clients_built : registry_new (some 0x0a4d_0001) none (client_a ∷ client_b ∷ []) ≡ ok two_clients
unfolding registry_new valid_ipv4_tunnel_address enroll_all enroll validate_identity
    validate_identity_key client_id_byte has_repeat validate_limits same_address register find_key
    register_fingerprints taken list_eq insert_address
two_clients_built = refl

same_address_refused :
    registry_new
      (some 0x0a4d_0001)
      none
      (client_a ∷ record client_b { policy = client_a.policy } ∷ [])
    ≡ err duplicate_client_address
unfolding registry_new valid_ipv4_tunnel_address enroll_all enroll validate_identity
    validate_identity_key client_id_byte has_repeat validate_limits same_address register find_key
    register_fingerprints taken list_eq insert_address
same_address_refused = refl

client_a_built :
    identity_new
      (b'a' ∷ [])
      (print_a ∷ [])
      true
      (some 0x0a4d_0002)
      none
      (VpnIpNetwork.v4 0xc000_0200 24 ∷ [])
      default_limits
    ≡ ok client_a
unfolding identity_new validate_identity_key client_id_byte has_repeat data_policy
    valid_ipv4_tunnel_address lacks_family validate_limits
client_a_built = refl

authorize-authorize_by_search_example :
    authorize two_clients print_b ≡ authorize_by_search (client_a ∷ client_b ∷ []) print_b
authorize-authorize_by_search_example =
    authorize-authorize_by_search (some 0x0a4d_0001) none (client_a ∷ client_b ∷ []) two_clients
      two_clients_built print_b

own_address : permits_source (client_b.policy) (IpAddr.v4 0x0a4d_0003) ≡ true
unfolding permits_source
own_address = refl

client_b_second : nth 1 (two_clients.identities) ≡ some client_b
unfolding nth
client_b_second = refl

permits_source-apart_example : ◌≡◌ {A = ℕ} 1 1
permits_source-apart_example =
    permits_source-apart (some 0x0a4d_0001) none (client_a ∷ client_b ∷ []) two_clients
      two_clients_built 1 1 client_b client_b (IpAddr.v4 0x0a4d_0003) client_b_second
      client_b_second own_address own_address

-- 10.8.0.0/16.
wide_network : network_v4 0x0a08_0000 16 ≡ ok (VpnIpNetwork.v4 0x0a08_0000 16)
unfolding network_v4 Network.prefix_mask_v4
wide_network = refl

contains-network_v4_example :
    ((contains (VpnIpNetwork.v4 0x0a08_0000 16) (IpAddr.v4 0x0a08_0907) ≡ true)
      ↔ (0x0a08_0907 / 2 ^ (32 - 16) ≡ 0x0a08_0000 / 2 ^ (32 - 16)))
    × (contains (VpnIpNetwork.v4 0x0a08_0000 16) (IpAddr.v6 1) ≡ false)
contains-network_v4_example =
    contains-network_v4 0x0a08_0000 16 (VpnIpNetwork.v4 0x0a08_0000 16) 0x0a08_0907 1 (omega arith)
      wide_network (omega arith)

-- fd77::/64.
long_network :
    network_v6 0xfd77_0000_0000_0000_0000_0000_0000_0000 64
    ≡ ok (VpnIpNetwork.v6 0xfd77_0000_0000_0000_0000_0000_0000_0000 64)
unfolding network_v6 Network.prefix_mask_v6
long_network = refl

contains-network_v6_example :
    ((contains
          (VpnIpNetwork.v6 0xfd77_0000_0000_0000_0000_0000_0000_0000 64)
          (IpAddr.v6 0xfd77_0000_0000_0000_0000_0000_0000_1234)
        ≡ true)
      ↔ (0xfd77_0000_0000_0000_0000_0000_0000_1234 / 2 ^ (128 - 64)
          ≡ 0xfd77_0000_0000_0000_0000_0000_0000_0000 / 2 ^ (128 - 64)))
    × (contains (VpnIpNetwork.v6 0xfd77_0000_0000_0000_0000_0000_0000_0000 64) (IpAddr.v4 1)
        ≡ false)
contains-network_v6_example =
    contains-network_v6 0xfd77_0000_0000_0000_0000_0000_0000_0000 64
      (VpnIpNetwork.v6 0xfd77_0000_0000_0000_0000_0000_0000_0000 64)
      0xfd77_0000_0000_0000_0000_0000_0000_1234 1 (omega arith) long_network (omega arith)

sevens-bytes : (n : ℕ) → All IsByte (replicate n 7)
sevens-bytes zero = tt
sevens-bytes (suc n) = (omega arith, sevens-bytes n)

parse_hex-to_hex_example : parse_hex (to_hex print_a) ≡ ok print_a
parse_hex-to_hex_example = parse_hex-to_hex print_a (sevens-bytes 32) refl

-- ===== src/Identity/Errors.antt =====
-- src/vpn_identity.rs, the limits and the error type.
use flowweave.Prelude.{ℕ, ◌*◌}

pub data VpnIdentityError : Type 0 where
  invalid_fingerprint_hex invalid_client_id missing_fingerprint : VpnIdentityError
  too_many_fingerprints too_many_identities too_many_destination_networks : VpnIdentityError
  missing_client_address invalid_client_address missing_server_address : VpnIdentityError
  invalid_server_address address_family_unavailable : VpnIdentityError
  client_server_address_conflict duplicate_client_id duplicate_fingerprint : VpnIdentityError
  duplicate_client_address duplicate_destination_network invalid_limits : VpnIdentityError
  invalid_network_prefix non_canonical_network : VpnIdentityError

abbrev pub vpn_sha256_fingerprint_len : ℕ
vpn_sha256_fingerprint_len = 32

abbrev pub vpn_max_identities : ℕ
vpn_max_identities = 4096

abbrev pub vpn_max_client_id_len : ℕ
vpn_max_client_id_len = 64

abbrev pub vpn_max_fingerprints_per_identity : ℕ
vpn_max_fingerprints_per_identity = 2

abbrev pub vpn_max_destination_networks_per_identity : ℕ
vpn_max_destination_networks_per_identity = 256

abbrev pub vpn_max_connections_per_identity : ℕ
vpn_max_connections_per_identity = 1

abbrev pub vpn_max_packets_per_second : ℕ
vpn_max_packets_per_second = 1_000_000

abbrev pub vpn_max_bytes_per_second : ℕ
vpn_max_bytes_per_second = 4 * 1024 * 1024 * 1024

-- Of src/vpn.rs.
abbrev pub vpn_default_max_reassembly_bytes : ℕ
vpn_default_max_reassembly_bytes = 8 * 1024 * 1024

-- ===== src/Identity/Network.antt =====
-- src/vpn_identity.rs, `VpnIpNetwork`: an address and a prefix length, by masks.
pub mod Prefix
use flowweave.Prelude.{
  ℕ, zero, suc, ◌+◌, ◌-◌, ◌*◌, ◌/◌, ◌%◌, ◌^◌, ◌≤◌, ◌<◌, ◌≡◌, ◌↔◌, refl, arith, ltb, ◌==◌, ==_iff,
  if◌then◌else◌, not, Bool, true, false, ◌&&◌, bit_and, bit_and_mask, Result, ok, err, ◌>>=◌, ◌>>◌,
  fail_if, u32_max, u128_max, all, List, [], ◌∷◌, descending, row_of, ◌∙◌,
}
use flowweave.Packet.{IpAddr}
use flowweave.Packet
use flowweave.Identity.Errors.{VpnIdentityError, invalid_network_prefix, non_canonical_network}

pub data VpnIpNetwork : Type 0 where
  v4 v6 : (network prefix_len : ℕ) → VpnIpNetwork

-- `u32::MAX << (32 - prefix_len)`.
unfoldable pub prefix_mask_v4 : ℕ → ℕ
prefix_mask_v4 prefix_len = if prefix_len == 0 then 0 else u32_max * 2 ^ (32 - prefix_len) % 2 ^ 32

unfoldable pub prefix_mask_v6 : ℕ → ℕ
prefix_mask_v6 prefix_len =
    if prefix_len == 0 then 0 else u128_max * 2 ^ (128 - prefix_len) % 2 ^ 128

-- `VpnIpNetwork::v4` and `VpnIpNetwork::v6`.
unfoldable pub network_v4 : ℕ → ℕ → Result VpnIpNetwork VpnIdentityError
network_v4 network prefix_len = do
  fail_if (ltb 32 prefix_len) invalid_network_prefix
  fail_if (not (bit_and network (prefix_mask_v4 prefix_len) == network)) non_canonical_network
  ok (v4 network prefix_len)

unfoldable pub network_v6 : ℕ → ℕ → Result VpnIpNetwork VpnIdentityError
network_v6 network prefix_len = do
  fail_if (ltb 128 prefix_len) invalid_network_prefix
  fail_if (not (bit_and network (prefix_mask_v6 prefix_len) == network)) non_canonical_network
  ok (v6 network prefix_len)

unfoldable pub contains : VpnIpNetwork → IpAddr → Bool
contains (v4 network prefix_len) (IpAddr.v4 address) =
    bit_and address (prefix_mask_v4 prefix_len) == network
contains (v6 network prefix_len) (IpAddr.v6 address) =
    bit_and address (prefix_mask_v6 prefix_len) == network
contains (v4 network prefix_len) (IpAddr.v6 address) = false
contains (v6 network prefix_len) (IpAddr.v4 address) = false

-- The derived equality of networks.
unfoldable pub network_eq : VpnIpNetwork → VpnIpNetwork → Bool
network_eq (v4 a p) (v4 b q) = a == b && p == q
network_eq (v6 a p) (v6 b q) = a == b && p == q
network_eq (v4 a p) (v6 b q) = false
network_eq (v6 a p) (v4 b q) = false

-- A mask is `prefix_len` ones above zeros; each of the lengths is checked.
pub mask_table_v4 : all (λ p. prefix_mask_v4 p == (2 ^ p - 1) * 2 ^ (32 - p)) (descending 33) ≡ true
unfolding descending prefix_mask_v4
mask_table_v4 = refl

pub mask_table_v6 :
    all (λ p. prefix_mask_v6 p == (2 ^ p - 1) * 2 ^ (128 - p)) (descending 129) ≡ true
unfolding descending prefix_mask_v6
mask_table_v6 = refl

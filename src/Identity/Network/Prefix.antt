-- ===== src/Identity/Network/Prefix.antt =====
-- src/vpn_identity.rs, `VpnIpNetwork`: what the masks decide, as arithmetic.
use flowweave.Prelude.{
  ℕ, ◌-◌, ◌*◌, ◌/◌, ◌^◌, ◌≤◌, ◌<◌, bit_and, ◌≡◌, refl, sym, ap, ◌∙◌, ◌↔◌, arith, row_of, descending,
  bit_and_mask, leb, ◌==◌, ==_iff, Bool, true, false, ◌&&◌, all, ok,
}
use native.Mathlib.Nat.{mul-div_cancel, div-lt_iff_lt-mul}
use flowweave.Packet.{IpAddr}
use flowweave.Identity.Network.{
  VpnIpNetwork, prefix_mask_v4, prefix_mask_v6, mask_table_v4, mask_table_v6, network_v4,
  network_v6, contains,
}

-- The powers of a width split at a prefix.
split_at : (width p : ℕ) → Bool
split_at width p = 2 ^ p * 2 ^ (width - p) == 2 ^ width && leb 1 (2 ^ (width - p))

split_table_32 : all (split_at 32) (descending 33) ≡ true
unfolding descending split_at
split_table_32 = refl

split_table_128 : all (split_at 128) (descending 129) ≡ true
unfolding descending split_at
split_table_128 = refl

-- A mask that is `p` ones above the zeros clears the bits after the prefix.
module _ (width p : ℕ) (split : split_at width p ≡ true) where
  suffix_positive : 0 < 2 ^ (width - p)
  unfolding split_at
  suffix_positive = ground arith

  prefix_bound : (address : ℕ) → address < 2 ^ width → address / 2 ^ (width - p) < 2 ^ p
  unfolding split_at
  prefix_bound address small =
      (div-lt_iff_lt-mul {k = 2 ^ (width - p)} {x = address} {y = 2 ^ p} suffix_positive).1 whole
    where
      whole : address < 2 ^ p * 2 ^ (width - p)
      whole = ground arith

  bit_and-prefix :
      (address mask : ℕ)
      → address < 2 ^ width
      → mask ≡ (2 ^ p - 1) * 2 ^ (width - p)
      → bit_and address mask ≡ address / 2 ^ (width - p) * 2 ^ (width - p)
  bit_and-prefix address mask small ones =
      bit_and_mask (width - p) p address mask (prefix_bound address small) ones

  -- The masked address is the canonical network exactly if their prefixes are the same.
  masked_iff :
      (address network mask : ℕ)
      → address < 2 ^ width
      → network < 2 ^ width
      → mask ≡ (2 ^ p - 1) * 2 ^ (width - p)
      → bit_and network mask ≡ network
      → ((bit_and address mask == network) ≡ true)
        ↔ (address / 2 ^ (width - p) ≡ network / 2 ^ (width - p))
  masked_iff address network mask small network_small ones canonical = (
    λ e.
        sym (mul-div_cancel (address / 2 ^ (width - p)) suffix_positive)
        ∙ ap (λ x. x / 2 ^ (width - p))
            (sym (bit_and-prefix address mask small ones) ∙ (==_iff _ _).0 e),
    λ e. (==_iff _ _).1 (
        bit_and-prefix address mask small ones
        ∙ ap (λ x. x * 2 ^ (width - p)) e
        ∙ sym (bit_and-prefix network mask network_small ones)
        ∙ canonical),
  )

canonical_v4 :
    (network p : ℕ) (n : VpnIpNetwork)
    → network_v4 network p ≡ ok n
    → (p ≤ 32) × (bit_and network (prefix_mask_v4 p) ≡ network) × (n ≡ VpnIpNetwork.v4 network p)
unfolding network_v4
canonical_v4 network p n e = ground arith

canonical_v6 :
    (network p : ℕ) (n : VpnIpNetwork)
    → network_v6 network p ≡ ok n
    → (p ≤ 128) × (bit_and network (prefix_mask_v6 p) ≡ network) × (n ≡ VpnIpNetwork.v6 network p)
unfolding network_v6
canonical_v6 network p n e = ground arith

-- A network that `VpnIpNetwork::v4` has made contains the IPv4 addresses that have the network's
-- first `prefix_len` bits, and no IPv6 address.
pub contains-network_v4 :
    (network prefix_len : ℕ) (n : VpnIpNetwork) (address other : ℕ)
    → network < 2 ^ 32
    → network_v4 network prefix_len ≡ ok n
    → address < 2 ^ 32
    → ((contains n (IpAddr.v4 address) ≡ true)
        ↔ (address / 2 ^ (32 - prefix_len) ≡ network / 2 ^ (32 - prefix_len)))
      × (contains n (IpAddr.v6 other) ≡ false)
unfolding contains
contains-network_v4 network p n address other network_small e small =
    let (fits, canonical, made) = canonical_v4 network p n e in
    let ones = (==_iff _ _).0 (
      row_of (λ q. prefix_mask_v4 q == (2 ^ q - 1) * 2 ^ (32 - q)) 33 p (omega arith)
        mask_table_v4) in
    let split = row_of (split_at 32) 33 p (omega arith) split_table_32 in
    (
      rw made (
          masked_iff 32 p split address network (prefix_mask_v4 p) small network_small ones
            canonical),
      rw made refl,
    )

-- A network that `VpnIpNetwork::v6` has made contains the IPv6 addresses that have the network's
-- first `prefix_len` bits, and no IPv4 address.
pub contains-network_v6 :
    (network prefix_len : ℕ) (n : VpnIpNetwork) (address other : ℕ)
    → network < 2 ^ 128
    → network_v6 network prefix_len ≡ ok n
    → address < 2 ^ 128
    → ((contains n (IpAddr.v6 address) ≡ true)
        ↔ (address / 2 ^ (128 - prefix_len) ≡ network / 2 ^ (128 - prefix_len)))
      × (contains n (IpAddr.v4 other) ≡ false)
unfolding contains
contains-network_v6 network p n address other network_small e small =
    let (fits, canonical, made) = canonical_v6 network p n e in
    let ones = (==_iff _ _).0 (
      row_of (λ q. prefix_mask_v6 q == (2 ^ q - 1) * 2 ^ (128 - q)) 129 p (omega arith)
        mask_table_v6) in
    let split = row_of (split_at 128) 129 p (omega arith) split_table_128 in
    (
      rw made (
          masked_iff 128 p split address network (prefix_mask_v6 p) small network_small ones
            canonical),
      rw made refl,
    )

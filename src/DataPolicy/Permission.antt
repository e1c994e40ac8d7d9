-- ===== src/DataPolicy/Permission.antt =====
-- src/vpn_data_policy.rs: which packets pass, by their bytes and the addresses of the policy.
use flowweave.Prelude.{
  length-drop, length-take, All-drop, drop, All-take, from_be_bytes-lt, slice, from_be_bytes, ℕ,
  ◌+◌, ◌-◌, ◌/◌, ◌^◌, ◌≤◌, ◌<◌, IsByte, ◌≡◌, refl, sym, ap, subst, ◌∙◌, ◌↔◌, ◌⊎◌, inl, inr, arith,
  ◌==◌, ==_iff, Bool-cases, Bool, true, false, ◌||◌, Option, none, some, List, [], ◌∷◌, length, any,
  All, ok,
}
use flowweave.Identity.Policy.{is_some_and, VpnDataPolicy, permits_source, allows_destination}
use flowweave.Packet.{IpAddr, VpnIpPacketMeta}
use flowweave.Packet.Shape.{IsIpPacket}
use flowweave.Identity.Network.{VpnIpNetwork, network_v4, network_v6, contains}
use flowweave.Identity.Network.Prefix.{contains-network_v4, contains-network_v6}
use flowweave.DataPolicy.{VpnPacketDirection, uplink, downlink}

-- The address that has to be the client's, and the one that has to be in an allowed network.
abbrev pub client_side : VpnPacketDirection → VpnIpPacketMeta → IpAddr
client_side uplink meta = meta.source
client_side downlink meta = meta.destination

abbrev pub network_side : VpnPacketDirection → VpnIpPacketMeta → IpAddr
network_side uplink meta = meta.destination
network_side downlink meta = meta.source

-- The client's address of this family.
abbrev pub IsOwn : VpnDataPolicy → IpAddr → Type 0
IsOwn policy (IpAddr.v4 a) = policy.client_ipv4 ≡ some a
IsOwn policy (IpAddr.v6 a) = policy.client_ipv6 ≡ some a

-- An address of the network's family with the network's first `prefix_len` bits.
abbrev pub InNetwork : VpnIpNetwork → IpAddr → Type 0
InNetwork (VpnIpNetwork.v4 n p) (IpAddr.v4 a) = a / 2 ^ (32 - p) ≡ n / 2 ^ (32 - p)
InNetwork (VpnIpNetwork.v6 n p) (IpAddr.v6 a) = a / 2 ^ (128 - p) ≡ n / 2 ^ (128 - p)
InNetwork (VpnIpNetwork.v4 n p) (IpAddr.v6 a) = ⊥
InNetwork (VpnIpNetwork.v6 n p) (IpAddr.v4 a) = ⊥

abbrev pub InSome : List VpnIpNetwork → IpAddr → Type 0
InSome [] a = ⊥
InSome (n ∷ ns) a = InNetwork n a ⊎ InSome ns a

-- A network of the words of its family that its constructor has let through.
abbrev pub IsCanonical : VpnIpNetwork → Type 0
IsCanonical (VpnIpNetwork.v4 n p) = (n < 2 ^ 32) × (network_v4 n p ≡ ok (VpnIpNetwork.v4 n p))
IsCanonical (VpnIpNetwork.v6 n p) = (n < 2 ^ 128) × (network_v6 n p ≡ ok (VpnIpNetwork.v6 n p))

abbrev pub IsAddress : IpAddr → Type 0
IsAddress (IpAddr.v4 a) = a < 2 ^ 32
IsAddress (IpAddr.v6 a) = a < 2 ^ 128

is_some_and_iff : (o : Option ℕ) (a : ℕ) → (is_some_and o (λ b. b == a) ≡ true) ↔ (o ≡ some a)
is_some_and_iff none a = (λ e. cc, λ e. cc)
is_some_and_iff (some b) a = (λ e. ap some ((==_iff b a).0 e), λ e. ground arith)

pub permits_source_iff :
    (policy : VpnDataPolicy) (address : IpAddr)
    → (permits_source policy address ≡ true) ↔ IsOwn policy address
unfolding permits_source
permits_source_iff policy (IpAddr.v4 a) = is_some_and_iff policy.client_ipv4 a
permits_source_iff policy (IpAddr.v6 a) = is_some_and_iff policy.client_ipv6 a

differing : ◌≡◌ {A = Bool} false true → ⊥
differing e = cc

contains_iff :
    (network : VpnIpNetwork) (address : IpAddr)
    → IsCanonical network
    → IsAddress address
    → (contains network address ≡ true) ↔ InNetwork network address
contains_iff (VpnIpNetwork.v4 n p) (IpAddr.v4 a) (small, made) word =
    (contains-network_v4 n p _ a 0 small made word).0
contains_iff (VpnIpNetwork.v6 n p) (IpAddr.v6 a) (small, made) word =
    (contains-network_v6 n p _ a 0 small made word).0
contains_iff (VpnIpNetwork.v4 n p) (IpAddr.v6 a) (small, made) word =
    let no = (contains-network_v4 n p _ 0 a small made (omega arith)).1 in
    (λ e. differing (sym no ∙ e), λ x. absurd x)
contains_iff (VpnIpNetwork.v6 n p) (IpAddr.v4 a) (small, made) word =
    let no = (contains-network_v6 n p _ 0 a small made (omega arith)).1 in
    (λ e. differing (sym no ∙ e), λ x. absurd x)

allows_iff :
    (networks : List VpnIpNetwork) (address : IpAddr)
    → All IsCanonical networks
    → IsAddress address
    → (any (λ network. contains network address) networks ≡ true) ↔ InSome networks address
allows_iff [] address canonical word = (λ e. cc, λ x. absurd x)
allows_iff (n ∷ ns) address (canonical, rest) word =
    let one = contains_iff n address canonical word in
    let others = allows_iff ns address rest word in
    (
      λ e. elim (Bool-cases (contains n address)) [
        | inl hit ↦ inl (one.0 hit)
        | inr miss ↦ inr (others.0 (ground (arith, miss)))
      ],
      λ x. elim x [
        | inl here ↦ rw (one.1 here) refl
        | inr there ↦ any_later (contains n address) _ (others.1 there)
      ],
    )
  where
    any_later : (x y : Bool) → y ≡ true → (x || y) ≡ true
    any_later x y e = ground arith

pub allows_destination_iff :
    (policy : VpnDataPolicy) (address : IpAddr)
    → All IsCanonical policy.allowed_destinations
    → IsAddress address
    → (allows_destination policy address ≡ true) ↔ InSome policy.allowed_destinations address
unfolding allows_destination
allows_destination_iff policy address = allows_iff policy.allowed_destinations address

-- The addresses in a packet of bytes are words of their family.
slice-lt :
    (from count : ℕ) (bytes : List ℕ)
    → All IsByte bytes
    → from + count ≤ length bytes
    → from_be_bytes (slice from count bytes) < 256 ^ count
slice-lt from count bytes octets inside =
    from_be_bytes-lt (slice from count bytes) count
      (All-take IsByte count (drop from bytes) (All-drop IsByte from bytes octets))
      (omega (arith, length-take count (drop from bytes), length-drop from bytes))

IsIpPacket-IsAddress :
    (bytes : List ℕ) (meta : VpnIpPacketMeta)
    → All IsByte bytes
    → IsIpPacket bytes meta
    → IsAddress meta.source × IsAddress meta.destination
IsIpPacket-IsAddress bytes meta octets (h, inl v) =
    let long : 20 ≤ length bytes = omega (arith, v.header_low, v.header_high) in
    (
      subst IsAddress (sym v.source)
          (omega (arith, slice-lt 12 4 bytes octets (omega (arith, long)))),
      subst IsAddress (sym v.destination)
          (omega (arith, slice-lt 16 4 bytes octets (omega (arith, long)))),
    )
IsIpPacket-IsAddress bytes meta octets (h, inr v) =
    let long : 40 ≤ length bytes = omega (arith, v.total) in
    (
      subst IsAddress (sym v.source)
          (omega (arith, slice-lt 8 16 bytes octets (omega (arith, long)))),
      subst IsAddress (sym v.destination)
          (omega (arith, slice-lt 24 16 bytes octets (omega (arith, long)))),
    )

pub network_side-IsAddress :
    (direction : VpnPacketDirection) (bytes : List ℕ) (meta : VpnIpPacketMeta)
    → All IsByte bytes
    → IsIpPacket bytes meta
    → IsAddress (network_side direction meta)
network_side-IsAddress uplink bytes meta octets v = (IsIpPacket-IsAddress bytes meta octets v).1
network_side-IsAddress downlink bytes meta octets v = (IsIpPacket-IsAddress bytes meta octets v).0

-- ===== src/Active/Policy.antt =====
-- src/vpn_identity.rs, the equalities that `has_same_session_policy` uses.
use flowweave.Prelude.{
  ℕ, ◌≡◌, refl, ap, ◌↔◌, arith, ==_iff, Bool, true, false, Option, none, some, List, [], ◌∷◌,
  list_eq, list_eq→eq, list_eq_self,
}
use flowweave.Identity.Network.{VpnIpNetwork, network_eq}
use flowweave.Identity.Policy.{VpnDataPolicy, VpnIdentityLimits}
use flowweave.Identity.Registry.{VpnIdentity}
use flowweave.Active.{
  has_same_session_policy, policy_eq, limits_eq, option_eq, networks_eq, bool_eq,
}

-- The same client, with the same state, policy and limits: all but the fingerprints.
pub record SamePolicy (a b : VpnIdentity) : Type 0 where
  pub client_id : a.client_id ≡ b.client_id
  pub enabled : a.enabled ≡ b.enabled
  pub policy : a.policy ≡ b.policy
  pub limits : a.limits ≡ b.limits

option_eq→eq : (a b : Option ℕ) → option_eq a b ≡ true → a ≡ b
option_eq→eq none none e = refl
option_eq→eq (some a) (some b) e = ap some ((==_iff _ _).0 e)
option_eq→eq none (some b) e = cc
option_eq→eq (some a) none e = cc

option_eq_self : (a : Option ℕ) → option_eq a a ≡ true
option_eq_self none = refl
option_eq_self (some a) = (==_iff _ _).1 refl

network_eq→eq : (a b : VpnIpNetwork) → network_eq a b ≡ true → a ≡ b
unfolding network_eq
network_eq→eq (VpnIpNetwork.v4 a p) (VpnIpNetwork.v4 b q) e = ground arith
network_eq→eq (VpnIpNetwork.v6 a p) (VpnIpNetwork.v6 b q) e = ground arith
network_eq→eq (VpnIpNetwork.v4 a p) (VpnIpNetwork.v6 b q) e = cc
network_eq→eq (VpnIpNetwork.v6 a p) (VpnIpNetwork.v4 b q) e = cc

network_eq_self : (a : VpnIpNetwork) → network_eq a a ≡ true
unfolding network_eq
network_eq_self (VpnIpNetwork.v4 a p) = ground arith
network_eq_self (VpnIpNetwork.v6 a p) = ground arith

networks_eq→eq : (a b : List VpnIpNetwork) → networks_eq a b ≡ true → a ≡ b
networks_eq→eq [] [] e = refl
networks_eq→eq (x ∷ xs) (y ∷ ys) e = ground (arith, network_eq→eq x y, networks_eq→eq xs ys)
networks_eq→eq [] (y ∷ ys) e = cc
networks_eq→eq (x ∷ xs) [] e = cc

networks_eq_self : (a : List VpnIpNetwork) → networks_eq a a ≡ true
networks_eq_self [] = refl
networks_eq_self (x ∷ xs) = rw (network_eq_self x, networks_eq_self xs) refl

bool_eq→eq : (a b : Bool) → bool_eq a b ≡ true → a ≡ b
bool_eq→eq true true e = refl
bool_eq→eq false false e = refl
bool_eq→eq true false e = cc
bool_eq→eq false true e = cc

bool_eq_self : (a : Bool) → bool_eq a a ≡ true
bool_eq_self true = refl
bool_eq_self false = refl

policy_eq→eq : (a b : VpnDataPolicy) → policy_eq a b ≡ true → a ≡ b
unfolding policy_eq
policy_eq→eq a b e =
    let four : a.client_ipv4 ≡ b.client_ipv4 = option_eq→eq _ _ (ground arith) in
    let six : a.client_ipv6 ≡ b.client_ipv6 = option_eq→eq _ _ (ground arith) in
    let networks : a.allowed_destinations ≡ b.allowed_destinations =
      networks_eq→eq _ _ (ground arith) in
    λ i. record { client_ipv4 = four i; client_ipv6 = six i; allowed_destinations = networks i }

limits_eq→eq : (a b : VpnIdentityLimits) → limits_eq a b ≡ true → a ≡ b
unfolding limits_eq
limits_eq→eq a b e =
    let connections : a.max_connections ≡ b.max_connections = ground arith in
    let packets : a.max_packets_per_second ≡ b.max_packets_per_second = ground arith in
    let bytes : a.max_bytes_per_second ≡ b.max_bytes_per_second = ground arith in
    let reassembly : a.max_reassembly_bytes ≡ b.max_reassembly_bytes = ground arith in
    λ i. record {
      max_connections = connections i;
      max_packets_per_second = packets i;
      max_bytes_per_second = bytes i;
      max_reassembly_bytes = reassembly i;
    }

policy_eq_self : (a : VpnDataPolicy) → policy_eq a a ≡ true
unfolding policy_eq
policy_eq_self a =
    rw
      (
        option_eq_self a.client_ipv4,
        option_eq_self a.client_ipv6,
        networks_eq_self a.allowed_destinations,
      )
      refl

limits_eq_self : (a : VpnIdentityLimits) → limits_eq a a ≡ true
unfolding limits_eq
limits_eq_self a = ground arith

-- The program's test decides it.
pub has_same_session_policy_iff :
    (a b : VpnIdentity) → (has_same_session_policy a b ≡ true) ↔ SamePolicy a b
unfolding has_same_session_policy
has_same_session_policy_iff a b = (
  λ e.
      let same_limits : limits_eq a.limits b.limits ≡ true = ground arith in
      let same_policy : policy_eq a.policy b.policy ≡ true = ground arith in
      let same_state : bool_eq a.enabled b.enabled ≡ true = ground arith in
      let same_client : list_eq a.client_id b.client_id ≡ true = ground arith in
      record {
        client_id = list_eq→eq a.client_id b.client_id same_client;
        enabled = bool_eq→eq a.enabled b.enabled same_state;
        policy = policy_eq→eq a.policy b.policy same_policy;
        limits = limits_eq→eq a.limits b.limits same_limits;
      },
  λ s.
      rw
        (
          s.client_id,
          s.enabled,
          s.policy,
          s.limits,
          list_eq_self b.client_id,
          bool_eq_self b.enabled,
          policy_eq_self b.policy,
          limits_eq_self b.limits,
        )
        refl,
)

-- ===== src/Active.antt =====
-- src/vpn_active_session.rs, `VpnSessionCoordinator`: the active session of each client. The lock of its
-- state makes a method one step. What several objects share through an `Arc` is here once: the quota
-- counters, the policy counters, and the rate limiter of an identity, whose state `identity_quotas` has;
-- a data path is called with them. A connection is its number, and what a method closes is a result.
pub mod Coordinator
pub mod Commit
pub mod Generations
pub mod Accounts
pub mod Policy
pub mod Reload
pub mod Sessions
pub mod Keys
pub mod Events
mod Runs
use flowweave.Identity.Network.{VpnIpNetwork, network_eq}
use flowweave.Prelude.{
  ℕ, zero, suc, ◌+◌, ◌-◌, ◌*◌, ◌/◌, ◌%◌, ◌^◌, ◌≤◌, ◌<◌, replicate, IsByte, min, max, bit_and,
  bit_or, u16_max, u32_max, u64_max, u128_max, usize_max, saturating_add, saturating_mul,
  checked_add, checked_sub, increment, ◌≡◌, refl, sym, ap, subst, ◌∙◌, ◌≢◌, ◌↔◌, ◌⊎◌, inl, inr,
  arith, row_of, descending, bit_and_mask, ltb, leb, ◌==◌, ==_iff, leb→le, Bool-cases, Option-cases,
  Result-cases, check-eq_ok, bind-returns, if◌then◌else◌, Bool, true, false, not, ◌&&◌, ◌||◌,
  Option, none, some, List, [], ◌∷◌, length, is_empty, any, all, All, list_eq, list_eq→eq,
  list_eq_self, Result, ok, err, ◌>>=◌, ◌>>◌, fail_if, ok_or, map_err, is_err, is_some, is_none,
  then_some, checked_add-some,
}
use flowweave.Identity.Policy.{VpnDataPolicy, VpnIdentityLimits}
use flowweave.Identity.Registry.{VpnIdentity, VpnIdentityRegistry}
use flowweave.Session.{VpnNegotiatedSession}
use flowweave.DataPolicy.{VpnDataPolicyMetrics}
use flowweave.Quota.{VpnQuotaMetrics, IdentityRateState, no_quota_metrics}
use flowweave.Quota.Budget.{VpnGlobalReassemblyBudget, budget_new}
use flowweave.DataPath.{VpnDataPathHandle}

pub data VpnSessionCommitError : Type 0 where
  identity_revoked policy_changed : VpnSessionCommitError

-- The errors of `VpnManagedSessionError` that the coordinator itself returns.
pub data VpnManagedSessionError : Type 0 where
  generation_exhausted invalid_resource_limits : VpnManagedSessionError

pub data ReconcileDecision : Type 0 where
  keep revoke change_policy : ReconcileDecision

-- The codes of a close.
abbrev pub vpn_close_session_replaced : ℕ
vpn_close_session_replaced = 0x100

abbrev pub vpn_close_identity_revoked : ℕ
vpn_close_identity_revoked = 0x101

abbrev pub vpn_close_policy_changed : ℕ
vpn_close_policy_changed = 0x102

abbrev pub vpn_close_commit_rejected : ℕ
vpn_close_commit_rejected = 0x103

abbrev pub vpn_close_server_shutdown : ℕ
vpn_close_server_shutdown = 0x104

pub record VpnSessionReconcileReport : Type 0 where
  pub kept : ℕ
  pub identities_revoked : ℕ
  pub policies_changed : ℕ

pub record VpnSessionCoordinatorMetrics : Type 0 where
  pub active_sessions : ℕ
  pub total_committed : ℕ
  pub replacements : ℕ
  pub commit_rejections : ℕ
  pub identity_revocations : ℕ
  pub policy_change_closes : ℕ
  pub normal_releases : ℕ
  pub shutdown_closes : ℕ

abbrev pub no_sessions : VpnSessionCoordinatorMetrics
no_sessions = record {
  active_sessions = 0;
  total_committed = 0;
  replacements = 0;
  commit_rejections = 0;
  identity_revocations = 0;
  policy_change_closes = 0;
  normal_releases = 0;
  shutdown_closes = 0;
}

pub record ActiveVpnSession : Type 0 where
  pub session : VpnNegotiatedSession
  pub connection : ℕ
  pub data_path : VpnDataPathHandle

abbrev pub ActiveSessions : Type 0
ActiveSessions = List (List ℕ × ActiveVpnSession)

abbrev pub IdentityQuotas : Type 0
IdentityQuotas = List (List ℕ × IdentityRateState)

-- `VpnSessionCoordinator` with its `CoordinatorState`.
pub record VpnSessionCoordinator : Type 0 where
  pub registry : VpnIdentityRegistry
  pub active : ActiveSessions
  pub metrics : VpnSessionCoordinatorMetrics
  pub identity_quotas : IdentityQuotas
  pub next_generation : ℕ
  pub quota_metrics : VpnQuotaMetrics
  pub data_metrics : VpnDataPolicyMetrics
  pub global_budget : VpnGlobalReassemblyBudget

-- `HashMap::get`, `remove` and `insert`.
unfoldable pub find {ℓ} : {A : Type ℓ} → List ℕ → List (List ℕ × A) → Option A
find key [] = none
find key ((k, x) ∷ rest) = if list_eq key k then some x else find key rest

unfoldable pub remove {ℓ} : {A : Type ℓ} → List ℕ → List (List ℕ × A) → List (List ℕ × A)
remove key [] = []
remove key ((k, x) ∷ rest) = if list_eq key k then rest else (k, x) ∷ remove key rest

-- The equality of optional addresses, of policies and of limits.
abbrev pub option_eq : Option ℕ → Option ℕ → Bool
option_eq none none = true
option_eq (some a) (some b) = a == b
option_eq none (some b) = false
option_eq (some a) none = false

abbrev pub networks_eq : List VpnIpNetwork → List VpnIpNetwork → Bool
networks_eq [] [] = true
networks_eq (a ∷ l) (b ∷ r) = network_eq a b && networks_eq l r
networks_eq [] (b ∷ r) = false
networks_eq (a ∷ l) [] = false

unfoldable pub policy_eq : VpnDataPolicy → VpnDataPolicy → Bool
policy_eq a b =
    option_eq a.client_ipv4 b.client_ipv4
    && option_eq a.client_ipv6 b.client_ipv6
    && networks_eq a.allowed_destinations b.allowed_destinations

unfoldable pub limits_eq : VpnIdentityLimits → VpnIdentityLimits → Bool
limits_eq a b =
    a.max_connections == b.max_connections
    && a.max_packets_per_second == b.max_packets_per_second
    && a.max_bytes_per_second == b.max_bytes_per_second
    && a.max_reassembly_bytes == b.max_reassembly_bytes

abbrev pub bool_eq : Bool → Bool → Bool
bool_eq true b = b
bool_eq false b = not b

-- `VpnIdentity::has_same_session_policy`.
unfoldable pub has_same_session_policy : VpnIdentity → VpnIdentity → Bool
has_same_session_policy a b =
    list_eq a.client_id b.client_id
    && bool_eq a.enabled b.enabled
    && policy_eq a.policy b.policy
    && limits_eq a.limits b.limits

-- `with_resource_limits`.
unfoldable pub with_resource_limits :
    VpnIdentityRegistry
    → VpnDataPolicyMetrics
    → (initial_generation global_reassembly_limit global_inflight_limit : ℕ)
    → Result VpnSessionCoordinator VpnManagedSessionError
with_resource_limits registry no_data_metrics initial_generation reassembly_limit inflight_limit =
    do
      fail_if (initial_generation == 0) generation_exhausted
      budget ← ok_or (budget_new reassembly_limit inflight_limit) invalid_resource_limits
      ok (record {
        registry = registry;
        active = [];
        metrics = no_sessions;
        identity_quotas = [];
        next_generation = initial_generation;
        quota_metrics = no_quota_metrics;
        data_metrics = no_data_metrics;
        global_budget = budget;
      })

-- ===== src/DataPath/Server.antt =====
-- src/vpn_data_path.rs with src/vpn_quota.rs: the data paths of a server. They share the global budget
-- and its counters, and their calls interleave; a call holds the state of its path from start to end.
-- The counters are one object: here the server's, which a call starts with and leaves. The limiter of an
-- identity is a copy in each of its data paths.
pub mod Shares
pub mod Opening
pub mod Interleaving
use flowweave.Prelude.{
  ℕ, zero, suc, ◌+◌, ◌-◌, ◌*◌, ◌/◌, ◌%◌, ◌^◌, ◌≤◌, ◌<◌, replicate, IsByte, min, max, bit_and,
  bit_or, u16_max, u32_max, u64_max, u128_max, usize_max, saturating_add, saturating_mul,
  checked_add, checked_sub, increment, ◌≡◌, refl, sym, ap, subst, ◌∙◌, ◌≢◌, ◌↔◌, ◌⊎◌, inl, inr,
  arith, row_of, descending, bit_and_mask, ltb, leb, ◌==◌, ==_iff, leb→le, Bool-cases, Option-cases,
  Result-cases, check-eq_ok, bind-returns, if◌then◌else◌, Bool, true, false, not, ◌&&◌, ◌||◌,
  Option, none, some, List, [], ◌∷◌, length, is_empty, any, all, All, list_eq, list_eq→eq,
  list_eq_self, Result, ok, err, ◌>>=◌, ◌>>◌, fail_if, ok_or, map_err, is_err, is_some, is_none,
  then_some, checked_add-some,
}
use flowweave.Identity.Policy.{VpnDataPolicy, VpnIdentityLimits}
use flowweave.Identity.Errors.{vpn_default_max_reassembly_bytes}
use flowweave.DataPolicy.{VpnDataPolicyMetrics}
use flowweave.Quota.{VpnQuotaMetrics, VpnIdentityRateLimiter}
use flowweave.Quota.Budget.{VpnGlobalReassemblyBudget}
use flowweave.DataPath.{VpnDataPathHandle, quota_metrics, set_metrics, new_policy_inactive}
use flowweave.DataPath.Ingest.{drop_inner}
use flowweave.DataPath.Sound.Calls.Run.{Call, call, IsInput}

pub record Server : Type 0 where
  pub budget : VpnGlobalReassemblyBudget
  pub metrics : VpnQuotaMetrics
  pub paths : List VpnDataPathHandle

unfoldable pub get : ℕ → List VpnDataPathHandle → Option VpnDataPathHandle
get i [] = none
get zero (p ∷ ps) = some p
get (suc i) (p ∷ ps) = get i ps

unfoldable pub put : ℕ → VpnDataPathHandle → List VpnDataPathHandle → List VpnDataPathHandle
put i h [] = []
put zero h (p ∷ ps) = h ∷ ps
put (suc i) h (p ∷ ps) = p ∷ put i h ps

unfoldable pub remove : ℕ → List VpnDataPathHandle → List VpnDataPathHandle
remove i [] = []
remove zero (p ∷ ps) = ps
remove (suc i) (p ∷ ps) = p ∷ remove i ps

-- A data path is made, one of its methods is called, or it is dropped.
pub data Event : Type 0 where
  opens :
      VpnDataPolicy
      → VpnIdentityLimits
      → (max_ip_packet_len session_generation : ℕ) → VpnIdentityRateLimiter
      → VpnDataPolicyMetrics
      → Event
  calls : ℕ → Call → Event
  drops : ℕ → Event

-- `none` is a panic, or a loop without rounds left.
unfoldable pub serve : Server → Event → Option Server
serve s (opens data_policy limits packet_len generation limiter policy_metrics) =
    elim (new_policy_inactive data_policy limits packet_len generation
      (record limiter { metrics = s.metrics }) s.budget policy_metrics) [
        | err e ↦ some s
        | ok h ↦ some (record s { paths = h ∷ s.paths })
      ]
serve s (calls i c) = elim (get i s.paths) [
  | none ↦ some s
  | some p ↦ elim (call (set_metrics p s.metrics) c) [
    | none ↦ none
    | some h ↦ some (record s { metrics = quota_metrics h; paths = put i h s.paths })
  ]
]
serve s (drops i) = elim (get i s.paths) [
  | none ↦ some s
  | some p ↦ elim (drop_inner (set_metrics p s.metrics)) [
    | none ↦ none
    | some h ↦ some (record s { metrics = quota_metrics h; paths = remove i s.paths })
  ]
]

abbrev pub serve_all : Server → List Event → Option Server
serve_all s [] = some s
serve_all s (e ∷ es) = elim (serve s e) [ none ↦ none | some s' ↦ serve_all s' es ]

-- The limits of an identity are inside the bounds that `VpnIdentityLimits` is checked for, and
-- datagrams are bytes.
abbrev pub IsAllowed : Event → Type 0
IsAllowed (opens data_policy limits packet_len generation limiter policy_metrics) =
    limits.max_reassembly_bytes ≤ vpn_default_max_reassembly_bytes
IsAllowed (calls i c) = IsInput c
IsAllowed (drops i) = Unit {0}

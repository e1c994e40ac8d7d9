-- ===== src/DataPath.antt =====
-- src/vpn_data_path.rs, the state of a data path: a reassembler for each direction, the amounts that the
-- global budget accounts for them, and what the handle shares with others. The rate limiter's
-- counters are the quota metrics of the path and of the budget: one object, which all of them share.
pub mod Ingest
pub mod Passing
pub mod Delivery
pub mod Gate
pub mod Sound
pub mod Server
mod Runs
use flowweave.Prelude.{
  ℕ, zero, suc, ◌+◌, ◌-◌, ◌*◌, ◌/◌, ◌%◌, ◌^◌, ◌≤◌, ◌<◌, replicate, IsByte, min, max, bit_and,
  bit_or, u16_max, u32_max, u64_max, u128_max, usize_max, saturating_add, saturating_mul,
  checked_add, checked_sub, increment, ◌≡◌, refl, sym, ap, subst, ◌∙◌, ◌≢◌, ◌↔◌, ◌⊎◌, inl, inr,
  arith, row_of, descending, bit_and_mask, ltb, leb, ◌==◌, ==_iff, leb→le, Bool-cases, Option-cases,
  Result-cases, check-eq_ok, bind-returns, if◌then◌else◌, Bool, true, false, not, ◌&&◌, ◌||◌,
  Option, none, some, List, [], ◌∷◌, length, is_empty, any, all, All, list_eq, list_eq→eq,
  list_eq_self, Result, ok, err, ◌>>=◌, ◌>>◌, fail_if, ok_or, map_err, is_err, is_some, is_none,
  then_some, checked_add-some,
}
use flowweave.Packet.{
  VpnPacketError, VpnIpPacketMeta, vpn_min_ip_packet_len, vpn_max_ip_packet_len,
  invalid_reassembly_limits,
}
use flowweave.Reassembly.{
  VpnReassembler, VpnReassemblyLimits, VpnReassemblyStats, new, oldest_packet_updated_at,
  evict_packet,
}
use flowweave.Reassembly
use flowweave.Reassembly.Room
use flowweave.Identity.Policy.{VpnDataPolicy, VpnIdentityLimits}
use flowweave.DataPolicy.{
  VpnPacketDirection, uplink, downlink, VpnDataPolicyMetrics, VpnDataPolicyError,
}
use flowweave.Quota.{
  VpnIdentityRateLimiter, VpnQuotaMetrics, VpnQuotaRejection, identity_inflight_limit,
  identity_reassembly_limit,
}
use flowweave.Quota.Budget.{VpnGlobalReassemblyBudget, release}

-- Of src/vpn.rs; 3 seconds.
abbrev pub vpn_default_fragment_timeout : ℕ
vpn_default_fragment_timeout = 3_000_000_000

abbrev pub vpn_default_max_inflight_packets : ℕ
vpn_default_max_inflight_packets = 1024

pub record VpnDataPacket : Type 0 where
  pub bytes : List ℕ
  pub metadata : VpnIpPacketMeta

pub data VpnDataPathError : Type 0 where
  stale_generation negotiated_packet_too_large : VpnDataPathError
  quota : VpnQuotaRejection → VpnDataPathError
  fragment : VpnPacketError → VpnDataPathError
  policy : VpnDataPolicyError → VpnDataPathError
  resource_accounting_invariant : VpnDataPathError

pub record VpnDataPathState : Type 0 where
  pub active : Bool
  pub up : VpnReassembler
  pub down : VpnReassembler
  pub accounted_bytes : ℕ
  pub accounted_packets : ℕ

-- `VpnDataPathInner`.
pub record VpnDataPathHandle : Type 0 where
  pub data_policy : VpnDataPolicy
  pub max_ip_packet_len : ℕ
  pub max_reassembly_bytes : ℕ
  pub session_generation : ℕ
  pub rate_limiter : VpnIdentityRateLimiter
  pub global_budget : VpnGlobalReassemblyBudget
  pub policy_metrics : VpnDataPolicyMetrics
  pub runtime_bound : Bool
  pub state : VpnDataPathState

abbrev pub reassembly_limits : ℕ → VpnReassemblyLimits
reassembly_limits max_reassembly_bytes = record {
  max_inflight_packets = vpn_default_max_inflight_packets;
  max_buffered_bytes = max_reassembly_bytes;
  fragment_timeout = vpn_default_fragment_timeout;
}

-- `new_policy_inactive`; `new_inactive` passes it the policy and the limits of the identity.
unfoldable pub new_policy_inactive :
    VpnDataPolicy
    → VpnIdentityLimits
    → (max_ip_packet_len session_generation : ℕ) → VpnIdentityRateLimiter
    → VpnGlobalReassemblyBudget
    → VpnDataPolicyMetrics
    → Result VpnDataPathHandle VpnPacketError
new_policy_inactive data_policy limits packet_len generation limiter budget policy_metrics = do
  fail_if (not (leb vpn_min_ip_packet_len packet_len && leb packet_len vpn_max_ip_packet_len))
      invalid_reassembly_limits
  up ← Reassembly.new (reassembly_limits limits.max_reassembly_bytes)
  down ← Reassembly.new (reassembly_limits limits.max_reassembly_bytes)
  ok (record {
    data_policy = data_policy;
    max_ip_packet_len = packet_len;
    max_reassembly_bytes = limits.max_reassembly_bytes;
    session_generation = generation;
    rate_limiter = limiter;
    global_budget = budget;
    policy_metrics = policy_metrics;
    runtime_bound = false;
    state = record {
      active = false;
      up = up;
      down = down;
      accounted_bytes = 0;
      accounted_packets = 0;
    };
  })

unfoldable pub reassembler : VpnDataPathState → VpnPacketDirection → VpnReassembler
reassembler s uplink = s.up
reassembler s downlink = s.down

-- What a method of `reassembler_mut` leaves.
unfoldable pub set_reassembler :
    VpnDataPathState → VpnPacketDirection → VpnReassembler → VpnDataPathState
set_reassembler s uplink r = record s { up = r }
set_reassembler s downlink r = record s { down = r }

unfoldable pub buffered_bytes : VpnDataPathState → ℕ
buffered_bytes s = saturating_add usize_max s.up.buffered_bytes s.down.buffered_bytes

unfoldable pub inflight_packets : VpnDataPathState → ℕ
inflight_packets s = saturating_add usize_max (length s.up.packets) (length s.down.packets)

unfoldable pub expire : VpnDataPathState → ℕ → VpnDataPathState
expire s now = record s { up = (Room.expire s.up now).0; down = (Room.expire s.down now).0 }

unfoldable pub clear : VpnDataPathState → VpnDataPathState
clear s = record s { up = Reassembly.clear s.up; down = Reassembly.clear s.down }

-- The packet that `evict_oldest` leaves alone in the reassembler of `side`.
unfoldable pub excluded : (side direction : VpnPacketDirection) → ℕ → Bool → Option ℕ
excluded uplink uplink packet_id existing_packet = then_some existing_packet packet_id
excluded uplink downlink packet_id existing_packet = none
excluded downlink uplink packet_id existing_packet = none
excluded downlink downlink packet_id existing_packet = then_some existing_packet packet_id

abbrev pub evict_up : VpnDataPathState → ℕ → VpnDataPathState × Bool
evict_up s packet_id =
    let (r, evicted) = evict_packet s.up packet_id in (record s { up = r }, evicted)

abbrev pub evict_down : VpnDataPathState → ℕ → VpnDataPathState × Bool
evict_down s packet_id =
    let (r, evicted) = evict_packet s.down packet_id in (record s { down = r }, evicted)

-- The `match` of `evict_oldest`.
unfoldable pub evict_choice :
    VpnDataPathState → Option (ℕ × ℕ) → Option (ℕ × ℕ) → VpnDataPathState × Bool
evict_choice s (some (packet_id, at)) none = evict_up s packet_id
evict_choice s none (some (packet_id, at)) = evict_down s packet_id
evict_choice s (some (uplink_id, uplink_at)) (some (downlink_id, downlink_at)) =
    if leb uplink_at downlink_at then evict_up s uplink_id else evict_down s downlink_id
evict_choice s none none = (s, false)

unfoldable pub evict_oldest :
    VpnDataPathState → VpnPacketDirection → ℕ → Bool → VpnDataPathState × Bool
evict_oldest s direction packet_id existing_packet =
    evict_choice s
      (oldest_packet_updated_at s.up (excluded uplink direction packet_id existing_packet))
      (oldest_packet_updated_at s.down (excluded downlink direction packet_id existing_packet))

abbrev pub quota_metrics : VpnDataPathHandle → VpnQuotaMetrics
quota_metrics h = h.rate_limiter.metrics

abbrev pub set_metrics : VpnDataPathHandle → VpnQuotaMetrics → VpnDataPathHandle
set_metrics h m = record h { rate_limiter = record h.rate_limiter { metrics = m } }

abbrev pub set_state : VpnDataPathHandle → VpnDataPathState → VpnDataPathHandle
set_state h s = record h { state = s }

abbrev pub set_accounted : VpnDataPathHandle → (bytes packets : ℕ) → VpnDataPathHandle
set_accounted h bytes packets =
    set_state h (record h.state { accounted_bytes = bytes; accounted_packets = packets })

-- `checked_add(..).is_none_or(|sum| sum > limit)`.
abbrev pub exceeds : (value more limit : ℕ) → Bool
exceeds value more limit = elim (checked_add usize_max value more) [
  | none ↦ true
  | some total ↦ ltb limit total
]

-- The loop of `make_identity_room`. Each round that goes on takes a packet, so one round more than
-- there are packets is enough; `none` is to be out of rounds.
unfoldable pub make_identity_room :
    (rounds : ℕ)
    → VpnDataPathHandle
    → VpnPacketDirection
    → (packet_id : ℕ) → Bool
    → (additional_bytes additional_packets : ℕ)
    → Option (VpnDataPathHandle × Result (Unit {0}) VpnQuotaRejection)
make_identity_room zero h direction packet_id existing bytes packets = none
make_identity_room (suc rounds) h direction packet_id existing bytes packets =
    let count_exceeded =
      exceeds (inflight_packets h.state) packets vpn_default_max_inflight_packets in
    let bytes_exceeded = exceeds (buffered_bytes h.state) bytes h.max_reassembly_bytes in
    let m = quota_metrics h in
    let (s, evicted) = evict_oldest h.state direction packet_id existing in
    let rest =
      make_identity_room rounds (set_state h s) direction packet_id existing bytes packets in
    if not count_exceeded && not bytes_exceeded
    then some (h, ok tt)
    else if evicted
    then rest
    else if count_exceeded
    then some (
      set_metrics h
          (record m { identity_inflight_rejections = increment m.identity_inflight_rejections }),
      err identity_inflight_limit,
    )
    else some (
      set_metrics h (record m {
        identity_reassembly_rejections = increment m.identity_reassembly_rejections;
      }),
      err identity_reassembly_limit,
    )

-- The `false` of `reconcile_shrink` is `false`; the panic of the budget is `none`.
unfoldable pub reconcile_shrink : VpnDataPathHandle → Option (VpnDataPathHandle × Bool)
reconcile_shrink h =
    let bytes = buffered_bytes h.state in
    let packets = inflight_packets h.state in
    if ltb h.state.accounted_bytes bytes || ltb h.state.accounted_packets packets
    then some (h, false)
    else elim (release (quota_metrics h) (h.state.accounted_bytes - bytes)
        (h.state.accounted_packets - packets)) [
          | none ↦ none
          | some m ↦ some (set_accounted (set_metrics h m) bytes packets, true)
        ]

unfoldable pub release_all_accounted : VpnDataPathHandle → Option VpnDataPathHandle
release_all_accounted h =
    elim (release (quota_metrics h) h.state.accounted_bytes h.state.accounted_packets) [
      | none ↦ none
      | some m ↦ some (set_accounted (set_metrics h m) 0 0)
    ]

-- `fail_accounting`, whose error is always `resource_accounting_invariant`.
unfoldable pub fail_accounting : VpnDataPathHandle → Option VpnDataPathHandle
fail_accounting h = release_all_accounted (set_state h (clear h.state))

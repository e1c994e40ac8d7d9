-- ===== src/Quota.antt =====
-- src/vpn_quota.rs, the counters and the rate limiter of an identity: a bucket of packet tokens and one of byte tokens,
-- with a clock in nanoseconds. The mutex makes each call a step on the state; the counters are atomics.
pub mod Rate
pub mod Budget
pub mod Runs
use flowweave.Prelude.{
  ℕ, zero, suc, ◌+◌, ◌-◌, ◌*◌, ◌/◌, ◌%◌, ◌^◌, ◌≤◌, ◌<◌, replicate, IsByte, min, max, bit_and,
  bit_or, u16_max, u32_max, u64_max, u128_max, usize_max, saturating_add, saturating_mul,
  checked_add, checked_sub, increment, ◌≡◌, refl, sym, ap, subst, ◌∙◌, ◌≢◌, ◌↔◌, ◌⊎◌, inl, inr,
  arith, row_of, descending, bit_and_mask, ltb, leb, ◌==◌, ==_iff, Bool-cases, Option-cases,
  Result-cases, check-eq_ok, bind-returns, if◌then◌else◌, Bool, true, false, not, ◌&&◌, ◌||◌,
  Option, none, some, List, [], ◌∷◌, length, is_empty, any, all, All, list_eq, list_eq→eq,
  list_eq_self, Result, ok, err, ◌>>=◌, ◌>>◌, fail_if, ok_or, map_err, is_err, is_some, is_none,
  then_some,
}
use flowweave.Identity.Policy.{VpnIdentityLimits}
use flowweave.Fragment.{vpn_max_ip_datagram_len}
use flowweave.DataPolicy.{VpnPacketDirection, uplink, downlink}

abbrev pub token_scale : ℕ
token_scale = 1_000_000_000

pub data VpnQuotaRejection : Type 0 where
  invalid_datagram_size packet_rate_exceeded byte_rate_exceeded : VpnQuotaRejection
  identity_reassembly_limit global_reassembly_limit : VpnQuotaRejection
  identity_inflight_limit global_inflight_limit : VpnQuotaRejection

pub record VpnQuotaMetrics : Type 0 where
  pub admitted_uplink_datagrams : ℕ
  pub admitted_uplink_bytes : ℕ
  pub admitted_downlink_datagrams : ℕ
  pub admitted_downlink_bytes : ℕ
  pub stale_generation_rejections : ℕ
  pub invalid_datagram_rejections : ℕ
  pub packet_rate_rejections : ℕ
  pub byte_rate_rejections : ℕ
  pub identity_reassembly_rejections : ℕ
  pub global_reassembly_rejections : ℕ
  pub identity_inflight_rejections : ℕ
  pub global_inflight_rejections : ℕ
  pub current_reassembly_bytes : ℕ
  pub peak_reassembly_bytes : ℕ
  pub active_reassembly_packets : ℕ
  pub peak_reassembly_packets : ℕ

-- `VpnQuotaMetrics::default`.
abbrev pub no_quota_metrics : VpnQuotaMetrics
no_quota_metrics = record {
  admitted_uplink_datagrams = 0;
  admitted_uplink_bytes = 0;
  admitted_downlink_datagrams = 0;
  admitted_downlink_bytes = 0;
  stale_generation_rejections = 0;
  invalid_datagram_rejections = 0;
  packet_rate_rejections = 0;
  byte_rate_rejections = 0;
  identity_reassembly_rejections = 0;
  global_reassembly_rejections = 0;
  identity_inflight_rejections = 0;
  global_inflight_rejections = 0;
  current_reassembly_bytes = 0;
  peak_reassembly_bytes = 0;
  active_reassembly_packets = 0;
  peak_reassembly_packets = 0;
}

-- `value as u128` of a usize, times the scale.
abbrev pub scaled : ℕ → ℕ
scaled value = saturating_mul u128_max value token_scale

unfoldable pub packet_capacity : VpnIdentityLimits → ℕ
packet_capacity limits = scaled limits.max_packets_per_second

unfoldable pub byte_capacity : VpnIdentityLimits → ℕ
byte_capacity limits = scaled (max limits.max_bytes_per_second vpn_max_ip_datagram_len)

pub record IdentityRateState : Type 0 where
  pub limits : VpnIdentityLimits
  pub packet_tokens : ℕ
  pub byte_tokens : ℕ
  pub last_refill : ℕ

-- `IdentityRateState::new`.
unfoldable pub rate_state : VpnIdentityLimits → ℕ → IdentityRateState
rate_state limits now = record {
  limits = limits;
  packet_tokens = packet_capacity limits;
  byte_tokens = byte_capacity limits;
  last_refill = now;
}

-- The new number of tokens of a bucket.
abbrev pub filled : (tokens elapsed rate capacity : ℕ) → ℕ
filled tokens elapsed rate capacity =
    min (saturating_add u128_max tokens (saturating_mul u128_max elapsed rate)) capacity

unfoldable pub refill : IdentityRateState → ℕ → IdentityRateState
refill s now = elim (checked_sub now s.last_refill) [
  | none ↦ s
  | some elapsed ↦ record {
    limits = s.limits;
    packet_tokens =
        filled s.packet_tokens elapsed s.limits.max_packets_per_second (packet_capacity s.limits);
    byte_tokens =
        filled s.byte_tokens elapsed s.limits.max_bytes_per_second (byte_capacity s.limits);
    last_refill = now;
  }
]

unfoldable pub reconfigure : IdentityRateState → VpnIdentityLimits → ℕ → IdentityRateState
reconfigure s new_limits now =
    let s' = refill s now in
    record {
      limits = new_limits;
      packet_tokens = min s'.packet_tokens (packet_capacity new_limits);
      byte_tokens = min s'.byte_tokens (byte_capacity new_limits);
      last_refill = s'.last_refill;
    }

-- `try_fold` with `checked_add`.
unfoldable pub sum_lengths : ℕ → List ℕ → Option ℕ
sum_lengths total [] = some total
sum_lengths total (n ∷ rest) = elim (checked_add usize_max total n) [
  | none ↦ none
  | some total' ↦ sum_lengths total' rest
]

unfoldable pub record_admitted : VpnPacketDirection → ℕ → ℕ → VpnQuotaMetrics → VpnQuotaMetrics
record_admitted uplink count bytes m = record m {
  admitted_uplink_datagrams =
      saturating_add u64_max m.admitted_uplink_datagrams (min count u64_max);
  admitted_uplink_bytes = saturating_add u64_max m.admitted_uplink_bytes (min bytes u64_max);
}
record_admitted downlink count bytes m = record m {
  admitted_downlink_datagrams =
      saturating_add u64_max m.admitted_downlink_datagrams (min count u64_max);
  admitted_downlink_bytes = saturating_add u64_max m.admitted_downlink_bytes (min bytes u64_max);
}

unfoldable pub record_invalid_datagram : VpnQuotaMetrics → VpnQuotaMetrics
record_invalid_datagram m = record m {
  invalid_datagram_rejections = increment m.invalid_datagram_rejections;
}

-- `VpnIdentityRateLimiter`.
pub record VpnIdentityRateLimiter : Type 0 where
  pub state : IdentityRateState
  pub metrics : VpnQuotaMetrics

abbrev pub Admission : Type 0
Admission = VpnIdentityRateLimiter × Result (Unit {0}) VpnQuotaRejection

-- The part of `admit_datagrams` that holds the lock, after the refill.
unfoldable pub take_tokens :
    IdentityRateState → VpnQuotaMetrics → VpnPacketDirection → (count bytes : ℕ) → Admission
take_tokens s m direction count bytes =
    if ltb s.packet_tokens (scaled count)
    then (
      record {
        state = s;
        metrics = record m { packet_rate_rejections = increment m.packet_rate_rejections };
      },
      err packet_rate_exceeded,
    )
    else if ltb s.byte_tokens (scaled bytes)
    then (
      record {
        state = s;
        metrics = record m { byte_rate_rejections = increment m.byte_rate_rejections };
      },
      err byte_rate_exceeded,
    )
    else (
      record {
        state = record s {
          packet_tokens = s.packet_tokens - scaled count;
          byte_tokens = s.byte_tokens - scaled bytes;
        };
        metrics = record_admitted direction count bytes m;
      },
      ok tt,
    )

unfoldable pub admit_datagrams :
    VpnIdentityRateLimiter → VpnPacketDirection → List ℕ → ℕ → Admission
admit_datagrams r direction lengths now =
    if is_empty lengths || any (λ n. n == 0 || ltb vpn_max_ip_datagram_len n) lengths
    then (
      record { state = r.state; metrics = record_invalid_datagram r.metrics },
      err invalid_datagram_size,
    )
    else elim (sum_lengths 0 lengths) [
      | none ↦ (
        record { state = r.state; metrics = record_invalid_datagram r.metrics },
        err invalid_datagram_size,
      )
      | some bytes ↦ take_tokens (refill r.state now) r.metrics direction (length lengths) bytes
    ]

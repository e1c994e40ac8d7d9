-- ===== src/Quota/Runs.antt =====
-- Runs of the rate limiter, and the theorem at concrete calls.
use flowweave.Quota.Rate.{bytes_of}
use flowweave.Quota.{
  no_quota_metrics, sum_lengths, take_tokens, refill, packet_capacity, byte_capacity,
}
use flowweave.Prelude.{ℕ, ◌≡◌, refl, List, [], ◌∷◌}
use flowweave.Identity.Policy.{default_limits}
use flowweave.DataPolicy.{VpnPacketDirection, uplink, downlink}
use flowweave.Quota.{no_quota_metrics, VpnIdentityRateLimiter, admit_datagrams}
use flowweave.Quota.Rate.{admit_all}

-- One datagram a second, and a token for one at the start.
abbrev slow : VpnIdentityRateLimiter
slow = record {
  state = record {
    limits = record default_limits { max_packets_per_second = 1 };
    packet_tokens = 1_000_000_000;
    byte_tokens = 100_000_000_000_000;
    last_refill = 0;
  };
  metrics = no_quota_metrics;
}

-- At once, half a second later, and after a second.
abbrev three_calls : List (VpnPacketDirection × List ℕ × ℕ)
three_calls =
    (uplink, 100 ∷ [], 0)
    ∷ (downlink, 200 ∷ [], 500_000_000)
    ∷ (uplink, 300 ∷ [], 1_000_000_000)
    ∷ []

two_admitted : ((admit_all slow three_calls).1 ≡ 2) × ((admit_all slow three_calls).2 ≡ 400)
unfolding admit_all admit_datagrams sum_lengths take_tokens refill packet_capacity byte_capacity
    bytes_of
two_admitted = (refl, refl)

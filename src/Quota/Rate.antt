-- ===== src/Quota/Rate.antt =====
-- src/vpn_quota.rs: no more is admitted than the tokens at the start and the rate allow.
use flowweave.Quota.{
  IdentityRateState, VpnIdentityRateLimiter, VpnQuotaRejection, admit_datagrams, sum_lengths,
  token_scale,
}
use flowweave.Prelude.{
  ℕ, ◌+◌, ◌*◌, ◌^◌, ◌≤◌, ◌<◌, ◌≡◌, none, some, List, [], ◌∷◌, length, Result, ok, err,
}
use flowweave.DataPolicy.{VpnPacketDirection}

-- What a call has been granted: the amount if it returned, or nothing.
abbrev pub granted : Result (Unit {0}) VpnQuotaRejection → ℕ → ℕ
granted (ok done) amount = amount
granted (err e) amount = 0

-- From `s` to `t`, the packets and the bytes cost no more than what their buckets held and have
-- gained since.
abbrev pub Pays : IdentityRateState → IdentityRateState → ℕ → ℕ → Type 0
Pays s t packets bytes =
    (t.limits ≡ s.limits)
    × (t.packet_tokens + packets * token_scale + s.last_refill * s.limits.max_packets_per_second
        ≤ s.packet_tokens + t.last_refill * s.limits.max_packets_per_second)
    × (t.byte_tokens + bytes * token_scale + s.last_refill * s.limits.max_bytes_per_second
        ≤ s.byte_tokens + t.last_refill * s.limits.max_bytes_per_second)

-- The bytes of a call: the sum of its lengths, where that fits a usize.
unfoldable pub bytes_of : List ℕ → ℕ
bytes_of lengths = elim (sum_lengths 0 lengths) [ none ↦ 0 | some bytes ↦ bytes ]

-- A sequence of calls, and the numbers of datagrams and of bytes that were admitted.
unfoldable pub admit_all :
    VpnIdentityRateLimiter → List (VpnPacketDirection × List ℕ × ℕ) → VpnIdentityRateLimiter × ℕ × ℕ
admit_all r [] = (r, 0, 0)
admit_all r ((direction, lengths, now) ∷ calls) =
    let a = admit_datagrams r direction lengths now in
    let (after, packets, bytes) = admit_all (a.0) calls in
    (after, granted (a.1) (length lengths) + packets, granted (a.1) (bytes_of lengths) + bytes)

-- The slice of lengths of a call has a length of 64 bits.
abbrev pub CallFits : VpnPacketDirection × List ℕ × ℕ → Type 0
CallFits call = length (call.1) < 2 ^ 64

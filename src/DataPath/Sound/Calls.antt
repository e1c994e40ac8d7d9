-- ===== src/DataPath/Sound/Calls.antt =====
-- src/vpn_data_path.rs, the public methods of `VpnDataPathHandle`: each keeps the invariant.
pub mod Run
use flowweave.Quota.{
  record_invalid_datagram, VpnQuotaMetrics, VpnIdentityRateLimiter, VpnQuotaRejection,
  IdentityRateState, take_tokens, admit_datagrams, record_admitted, sum_lengths, refill,
}
use flowweave.DataPath.{
  quota, VpnDataPathHandle, VpnDataPathState, expire, clear, reassembler, set_reassembler,
  inflight_packets, quota_metrics, set_metrics, set_state, set_accounted, release_all_accounted,
}
use flowweave.Fragment.{vpn_max_ip_datagram_len, VpnFragment, decode_vpn_ip_fragment}
use flowweave.DataPath.Ingest.{
  Outcome, ingest_into, ingest_decoded, ingest_datagram, expire_reassembly, activate, deactivate,
  after_shrink,
}
use flowweave.Prelude.{
  ℕ, zero, suc, ◌+◌, ◌-◌, ◌*◌, ◌/◌, ◌%◌, ◌^◌, ◌≤◌, ◌<◌, replicate, IsByte, min, max, bit_and,
  bit_or, u16_max, u32_max, u64_max, u128_max, usize_max, saturating_add, saturating_mul,
  checked_add, checked_sub, increment, ◌≡◌, refl, sym, ap, subst, ◌∙◌, ◌≢◌, ◌↔◌, ◌⊎◌, inl, inr,
  arith, row_of, descending, bit_and_mask, ltb, leb, ◌==◌, ==_iff, leb→le, Bool-cases, Option-cases,
  Result-cases, check-eq_ok, bind-returns, if◌then◌else◌, Bool, true, false, not, ◌&&◌, ◌||◌,
  Option, none, some, List, [], ◌∷◌, length, is_empty, any, all, All, list_eq, list_eq→eq,
  list_eq_self, Result, ok, err, ◌>>=◌, ◌>>◌, fail_if, ok_or, map_err, is_err, is_some, is_none,
  then_some, checked_add-some,
}
use flowweave.Packet.{VpnPacketError, invalid_reassembly_limits}
use flowweave.Reassembly.{VpnReassembler, new}
use flowweave.Reassembly.Ingest.{ingest}
use flowweave.Reassembly.Invariant.{IsValid, new-IsValid}
use flowweave.Reassembly.Preservation.{ingest-IsValid, expire-IsValid}
use flowweave.Reassembly.Growth.{Grows}
use flowweave.Reassembly.Fresh.{IsFresh, expire-Grows, expire-IsFresh}
use flowweave.Reassembly.Fresh.Datagram.{ingest-undecoded}
use flowweave.DataPolicy.{VpnPacketDirection, uplink, downlink}
use flowweave.Quota.Budget.{release}
use flowweave.Quota.Budget.Holding.{Holds, Holds-same, Holds-shares, release-Holds}
use flowweave.DataPath.Sound.{
  Terms, used_bytes, used_packets, IsPath, IsBacked, IsSound, NotAccounting, EndsSound, shrunk,
  side-IsValid, reconcile_shrink-IsBacked,
}
use flowweave.DataPath.Sound.Step.{
  after_shrink-IsSound, smaller-IsSound, reject_oversized-EndsSound,
}
use flowweave.DataPath.Sound.Step.Growing.{ingest_accepted-EndsSound}
use flowweave.Reassembly
use flowweave.Reassembly.Room

-- The rate limiter leaves the two counters of the budget alone.
abbrev pub SameShares : VpnQuotaMetrics → VpnQuotaMetrics → Type 0
SameShares m m' =
    (m'.current_reassembly_bytes ≡ m.current_reassembly_bytes)
    × (m'.active_reassembly_packets ≡ m.active_reassembly_packets)

take_tokens-SameShares :
    (s : IdentityRateState) (m : VpnQuotaMetrics) (d : VpnPacketDirection) (count bytes : ℕ)
    → SameShares m (take_tokens s m d count bytes).0.metrics
unfolding take_tokens record_admitted
take_tokens-SameShares s m uplink count bytes = (ground arith, ground arith)
take_tokens-SameShares s m downlink count bytes = (ground arith, ground arith)

pub admit_datagrams-SameShares :
    (r : VpnIdentityRateLimiter) (d : VpnPacketDirection) (lengths : List ℕ) (now : ℕ)
    → SameShares r.metrics (admit_datagrams r d lengths now).0.metrics
unfolding admit_datagrams record_invalid_datagram
admit_datagrams-SameShares r d lengths now =
    elim (Bool-cases
      (is_empty lengths || any (λ n. n == 0 || ltb vpn_max_ip_datagram_len n) lengths)) [
        | inl bad ↦ rw (admit_datagrams, bad) (refl, refl)
        | inr fine ↦ elim (Option-cases (sum_lengths 0 lengths)) [
          | inl over ↦ rw (admit_datagrams, fine, over) (refl, refl)
          | inr (bytes, total) ↦
              rw (admit_datagrams, fine, total)
                (take_tokens-SameShares (refill r.state now) r.metrics d (length lengths) bytes)
        ]
      ]

module _ (terms : Terms) where
  pub limiter-IsSound :
      (h : VpnDataPathHandle) (r : VpnIdentityRateLimiter)
      → IsSound h terms
      → SameShares (quota_metrics h) r.metrics
      → IsSound (record h { rate_limiter = r }) terms
  limiter-IsSound h r v (e, e') = record {
    backed = record {
      kept = v.backed.kept;
      path = v.backed.path;
      held =
          Holds-same h.global_budget terms.other_bytes terms.other_packets (quota_metrics h)
            r.metrics h.state.accounted_bytes h.state.accounted_packets v.backed.held e e';
      bytes = v.backed.bytes;
      packets = v.backed.packets;
    };
    bytes = v.bytes;
    packets = v.packets;
  }

  pub expire-IsSound :
      (h : VpnDataPathHandle) (now : ℕ)
      → IsSound h terms
      → IsSound (set_state h (expire h.state now)) terms
  unfolding expire
  expire-IsSound h now v =
      let p = v.backed.path in
      let up = expire-Grows h.state.up now in
      let down = expire-Grows h.state.down now in
      record {
        backed = record {
          kept = v.backed.kept;
          path = record {
            up = expire-IsValid h.state.up now p.up;
            down = expire-IsValid h.state.down now p.down;
            up_limits = up.limits ∙ p.up_limits;
            down_limits = down.limits ∙ p.down_limits;
          };
          held = v.backed.held;
          bytes = omega (arith, up.more_bytes, down.more_bytes, v.backed.bytes);
          packets = omega (arith, up.more_packets, down.more_packets, v.backed.packets);
        };
        bytes = omega (arith, up.more_bytes, down.more_bytes, v.bytes);
        packets = omega (arith, up.more_packets, down.more_packets, v.packets);
      }

  -- After `expire` no packet is due, whatever is accounted.
  shrunk-IsFresh :
      (h : VpnDataPathHandle) (m : VpnQuotaMetrics) (d : VpnPacketDirection) (now : ℕ)
      → IsPath h.max_reassembly_bytes h.state
      → IsFresh now (reassembler (shrunk (set_state h (expire h.state now)) m).state d)
  unfolding expire reassembler
  shrunk-IsFresh h m uplink now p = expire-IsFresh h.state.up now p.up
  shrunk-IsFresh h m downlink now p = expire-IsFresh h.state.down now p.down

  ingest_decoded-EndsSound :
      (h : VpnDataPathHandle) (d : VpnPacketDirection) (now : ℕ) (datagram : List ℕ)
      → IsSound h terms
      → All IsByte datagram
      → IsFresh now (reassembler h.state d)
      → EndsSound terms (ingest_decoded h d now datagram)
  unfolding ingest_decoded ingest_into
  ingest_decoded-EndsSound h d now datagram v bs fresh =
      elim (Result-cases (decode_vpn_ip_fragment datagram)) [
        | inl (f, decoded) ↦ elim (Bool-cases (ltb h.max_ip_packet_len f.total_len)) [
          | inl large ↦
              rw (ingest_decoded, decoded, large) (reject_oversized-EndsSound terms h d f v)
          | inr fits ↦
              rw (ingest_decoded, decoded, fits)
                (ingest_accepted-EndsSound terms h d now datagram f v bs fresh decoded)
        ]
        | inr (x, undecoded) ↦
            let r = reassembler h.state d in
            rw (ingest_decoded, undecoded)
              (after_shrink-IsSound terms
                (set_state h (set_reassembler h.state d (ingest r now datagram).0)) _
                (smaller-IsSound terms h d _ v
                  (ingest-IsValid r now datagram bs
                    (side-IsValid h.max_reassembly_bytes h.state v.backed.path d))
                  (ingest-undecoded r now datagram x undecoded))
                (λ m sound. (sound, λ y. y)))
      ]

  -- A sound data path takes a datagram of bytes from the network, whatever it holds: the call returns
  -- without a panic and before its loop is out of rounds, never with the accounting error; both reassemblers stay sound,
  -- together they stay inside the limits of the identity, what they hold is accounted for, and what is
  -- accounted for is held of the global budget, whose limits are kept and where others keep theirs.
  pub ingest_datagram-EndsSound :
      (h : VpnDataPathHandle) (d : VpnPacketDirection) (datagram : List ℕ) (now : ℕ)
      → IsSound h terms
      → All IsByte datagram
      → EndsSound terms (ingest_datagram h d datagram now)
  unfolding ingest_datagram
  ingest_datagram-EndsSound h d datagram now v bs =
      gate h.state.active _ _ (limiter-IsSound h _ v (refl, refl), λ y. y)
        (admitted _ (
          limiter-IsSound h _ v
            (admit_datagrams-SameShares h.rate_limiter d (length datagram ∷ []) now)))
    where
      h' : VpnDataPathHandle
      h' = record h {
        rate_limiter = (admit_datagrams h.rate_limiter d (length datagram ∷ []) now).0;
      }

      admitted :
          (o : Result (Unit {0}) VpnQuotaRejection)
          → IsSound h' terms
          → EndsSound terms (elim o as (λ _. Option Outcome) [
            | err e ↦ some (h', err (quota e))
            | ok done ↦
                after_shrink
                  (set_state h' (expire h'.state now))
                  (λ h''. ingest_decoded h'' d now datagram)
          ])
      admitted (err e) w = (w, λ y. y)
      admitted (ok done) w =
          after_shrink-IsSound terms (set_state h' (expire h'.state now)) _
            (expire-IsSound h' now w)
            (λ m sound.
              ingest_decoded-EndsSound _ d now datagram sound bs
                (shrunk-IsFresh h' m d now w.backed.path))

      gate :
          (active : Bool) (inactive_outcome active_outcome : Option Outcome)
          → EndsSound terms inactive_outcome
          → EndsSound terms active_outcome
          → EndsSound terms (if not active then inactive_outcome else active_outcome)
      gate true x y a b = b
      gate false x y a b = a

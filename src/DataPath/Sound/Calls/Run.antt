-- ===== src/DataPath/Sound/Calls/Run.antt =====
-- src/vpn_data_path.rs: the methods of a data path as calls, and those that take no datagram.
use flowweave.Prelude.{
  map, ℕ, IsByte, ◌≡◌, refl, arith, false, Option, none, some, List, length, All, Result, ok, err,
}
use flowweave.DataPolicy.{record_result, VpnPacketDirection}
use flowweave.DataPath.{
  quota, VpnDataPathHandle, VpnDataPathError, clear, quota_metrics, set_metrics, set_state,
  set_accounted, release_all_accounted,
}
use flowweave.DataPath.Sound.Calls.{
  admit_datagrams, admit_datagrams-SameShares, limiter-IsSound, expire-IsSound,
}
use flowweave.Packet.{VpnIpPacketMeta}
use flowweave.Reassembly.{VpnReassembler}
use flowweave.Reassembly.Invariant.{IsValid}
use flowweave.Reassembly.Table.{total_received}
use flowweave.Quota.{VpnQuotaRejection}
use flowweave.Quota.Budget.Holding.{Holds-shares, release-Holds}
use flowweave.DataPath.Ingest.{
  ingest_datagram, send_fragments, encode_ip_packet, expire_reassembly, activate, deactivate,
}
use flowweave.DataPath.Sound.{Terms, used_bytes, used_packets, IsSound, reconcile_shrink-IsBacked}
use flowweave.DataPath.Sound.Step.{policy-IsSound}
use flowweave.Reassembly

pub data Call : Type 0 where
  ingests : VpnPacketDirection → List ℕ → ℕ → Call
  encodes : VpnPacketDirection → (packet_id : ℕ) → List ℕ → (max_datagram_len now : ℕ) → Call
  expires : ℕ → Call
  activates deactivates : Call

-- The handle after it; `none` is a panic, or a loop without rounds left.
abbrev pub call : VpnDataPathHandle → Call → Option VpnDataPathHandle
call h (ingests d datagram now) = elim (ingest_datagram h d datagram now) [
  | none ↦ none
  | some (h', r) ↦ some h'
]
call h (encodes d packet_id packet max_datagram_len now) =
    some (encode_ip_packet h d packet_id packet max_datagram_len now).0
call h (expires now) = elim (expire_reassembly h now) [ none ↦ none | some (h', n) ↦ some h' ]
call h activates = some (activate h)
call h deactivates = deactivate h

-- What comes in are bytes.
abbrev pub IsInput : Call → Type 0
IsInput (ingests d datagram now) = All IsByte datagram
IsInput _ = Unit {0}

abbrev pub EndsIn : Terms → Option VpnDataPathHandle → Type 0
EndsIn terms none = ⊥
EndsIn terms (some h) = IsSound h terms

module _ (terms : Terms) where
  -- After `deactivate` the data path holds nothing, neither bytes nor a share of the budget.
  pub record IsReleased (h : VpnDataPathHandle) : Type 0 where
    pub sound : IsSound h terms
    pub inactive : h.state.active ≡ false
    pub no_bytes : (used_bytes h.state ≡ 0) × (h.state.accounted_bytes ≡ 0)
    pub no_packets : (used_packets h.state ≡ 0) × (h.state.accounted_packets ≡ 0)
    pub bytes_left : (quota_metrics h).current_reassembly_bytes ≡ terms.other_bytes
    pub packets_left : (quota_metrics h).active_reassembly_packets ≡ terms.other_packets

  clear-IsValid : (r : VpnReassembler) → IsValid r → IsValid (Reassembly.clear r)
  unfolding Reassembly.clear total_received
  clear-IsValid r v = record {
    usable = v.usable;
    buffered = refl;
    stored = tt;
    distinct = tt;
    inflight = omega arith;
    bytes = omega arith;
  }

  -- On a sound data path `deactivate` does not panic: it drops what is buffered and gives the whole share back to the
  -- global budget, where exactly what others hold is left.
  pub deactivate-IsReleased :
      (h : VpnDataPathHandle)
      → IsSound h terms
      → (h' : VpnDataPathHandle) × (deactivate h ≡ some h') × IsReleased h'
  unfolding deactivate release_all_accounted clear Reassembly.clear
  deactivate-IsReleased h v =
      let p = v.backed.path in
      let (m, released, held) =
        release-Holds h.global_budget terms.other_bytes terms.other_packets (quota_metrics h)
          h.state.accounted_bytes h.state.accounted_packets h.state.accounted_bytes
          h.state.accounted_packets v.backed.held (omega arith) (omega arith) in
      (
        set_accounted (set_metrics (set_state h (clear (record h.state { active = false }))) m) 0 0,
        rw (deactivate, release_all_accounted, released) refl,
        record {
          sound = record {
            backed = record {
              kept = v.backed.kept;
              path = record {
                up = clear-IsValid h.state.up p.up;
                down = clear-IsValid h.state.down p.down;
                up_limits = p.up_limits;
                down_limits = p.down_limits;
              };
              held =
                  Holds-shares h.global_budget terms.other_bytes terms.other_packets m _ _ 0 0 held
                    (omega arith) (omega arith);
              bytes = omega arith;
              packets = omega arith;
            };
            bytes = omega arith;
            packets = omega arith;
          };
          inactive = refl;
          no_bytes = (refl, refl);
          no_packets = (refl, refl);
          bytes_left = omega (arith, held.bytes_held);
          packets_left = omega (arith, held.packets_held);
        },
      )

  pub activate-IsSound : (h : VpnDataPathHandle) → IsSound h terms → IsSound (activate h) terms
  unfolding activate
  activate-IsSound h v = record {
    backed = record {
      kept = v.backed.kept;
      path = v.backed.path;
      held = v.backed.held;
      bytes = v.backed.bytes;
      packets = v.backed.packets;
    };
    bytes = v.bytes;
    packets = v.packets;
  }

  pub expire_reassembly-IsSound :
      (h : VpnDataPathHandle) (now : ℕ) → IsSound h terms → EndsIn terms (call h (expires now))
  unfolding expire_reassembly
  expire_reassembly-IsSound h now v =
      let w = expire-IsSound terms h now v in
      let (m, shrinks, backed) = reconcile_shrink-IsBacked terms _ w.backed in
      rw (call, expire_reassembly, shrinks)
        (record { backed = backed; bytes = w.bytes; packets = w.packets })

  pub send_fragments-IsSound :
      (h : VpnDataPathHandle) (d : VpnPacketDirection) (m : VpnIpPacketMeta) (packet : List ℕ)
      (fragments : List (List ℕ)) (now : ℕ)
      → IsSound h terms
      → IsSound (send_fragments h d m packet fragments now).0 terms
  unfolding send_fragments
  send_fragments-IsSound h d m packet fragments now v =
      sent _ (limiter-IsSound terms h _ v (admit_datagrams-SameShares h.rate_limiter d _ now))
    where
      limited : VpnDataPathHandle
      limited = record h {
        rate_limiter = (admit_datagrams h.rate_limiter d (map (λ f. length f) fragments) now).0;
      }

      sent :
          (o : Result (Unit {0}) VpnQuotaRejection)
          → IsSound limited terms
          → IsSound
              (elim o as (λ _. VpnDataPathHandle × Result (List (List ℕ)) VpnDataPathError) [
                | err e ↦ (limited, err (quota e))
                | ok done ↦ (
                  record limited {
                    policy_metrics = record_result d (length packet) (ok m) limited.policy_metrics;
                  },
                  ok fragments,
                )
              ]).0
              terms
      sent (err e) w = w
      sent (ok done) w = policy-IsSound terms limited _ w

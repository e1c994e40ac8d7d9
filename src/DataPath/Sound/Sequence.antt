-- ===== src/DataPath/Sound/Sequence.antt =====
-- src/vpn_data_path.rs: every method of a data path keeps its invariant.
use flowweave.DataPath.{
  negotiated_packet_too_large, stale_generation, fragment, policy, VpnDataPacket, VpnDataPathHandle,
  VpnDataPathError,
}
use flowweave.DataPolicy.{
  record_result, VpnPacketDirection, VpnDataPolicyError, validate_vpn_ip_packet_policy,
}
use flowweave.Prelude.{
  ℕ, refl, ltb, if◌then◌else◌, Bool, true, false, not, Option, none, some, List, length, Result, ok,
  err,
}
use flowweave.Packet.{VpnPacketError, VpnIpPacketMeta}
use flowweave.Fragment.{encode_vpn_ip_fragments}
use flowweave.DataPath.Ingest.{
  record_stale_generation, ingest_datagram, send_fragments, encode_ip_packet,
}
use flowweave.DataPath.Sound.{Terms, IsSound, EndsSound}
use flowweave.DataPath.Sound.Step.{policy-IsSound}
use flowweave.DataPath.Sound.Calls.{limiter-IsSound, ingest_datagram-EndsSound}
use flowweave.DataPath.Sound.Calls.Run.{
  Call, ingests, encodes, expires, activates, deactivates, call, IsInput, EndsIn,
  deactivate-IsReleased, activate-IsSound, expire_reassembly-IsSound, send_fragments-IsSound,
}

module _ (terms : Terms) where
  encode_ip_packet-IsSound :
      (h : VpnDataPathHandle) (d : VpnPacketDirection) (packet_id : ℕ) (packet : List ℕ)
      (max_datagram_len now : ℕ)
      → IsSound h terms
      → IsSound (encode_ip_packet h d packet_id packet max_datagram_len now).0 terms
  unfolding encode_ip_packet
  encode_ip_packet-IsSound h d packet_id packet max_datagram_len now v =
      gate h.state.active (ltb h.max_ip_packet_len (length packet))
    where
      checked :
          (o : Result VpnIpPacketMeta VpnDataPolicyError)
          (p : Result (List (List ℕ)) VpnPacketError)
          → IsSound
              (elim o as (λ _. VpnDataPathHandle × Result (List (List ℕ)) VpnDataPathError) [
                | err e ↦ (
                  record h {
                    policy_metrics = record_result d (length packet) (err e) h.policy_metrics;
                  },
                  err (policy e),
                )
                | ok metadata ↦
                    elim p as (λ _. VpnDataPathHandle × Result (List (List ℕ)) VpnDataPathError) [
                      | err e ↦ (h, err (fragment e))
                      | ok fragments ↦ send_fragments h d metadata packet fragments now
                    ]
              ]).0
              terms
      checked (err e) p = policy-IsSound terms h _ v
      checked (ok m) (err e) = v
      checked (ok m) (ok fragments) = send_fragments-IsSound terms h d m packet fragments now v

      gate :
          (active large : Bool)
          → IsSound
              (if not active
                then (record_stale_generation h, err stale_generation)
                else if large
                then (h, err negotiated_packet_too_large)
                else elim (validate_vpn_ip_packet_policy h.data_policy d packet)
                    as (λ _. VpnDataPathHandle × Result (List (List ℕ)) VpnDataPathError) [
                      | err e ↦ (
                        record h {
                          policy_metrics = record_result d (length packet) (err e) h.policy_metrics;
                        },
                        err (policy e),
                      )
                      | ok metadata ↦
                          elim (encode_vpn_ip_fragments packet_id packet max_datagram_len)
                            as (λ _. VpnDataPathHandle × Result (List (List ℕ)) VpnDataPathError) [
                              | err e ↦ (h, err (fragment e))
                              | ok fragments ↦ send_fragments h d metadata packet fragments now
                            ]
                    ]).0
              terms
      gate false large = limiter-IsSound terms h _ v (refl, refl)
      gate true true = v
      gate true false = checked _ _

  pub call-EndsIn :
      (h : VpnDataPathHandle) (c : Call) → IsSound h terms → IsInput c → EndsIn terms (call h c)
  call-EndsIn h (ingests d datagram now) v bs =
      ended (ingest_datagram h d datagram now)
        (ingest_datagram-EndsSound terms h d datagram now v bs)
    where
      ended :
          (o : Option (VpnDataPathHandle × Result (Option VpnDataPacket) VpnDataPathError))
          → EndsSound terms o
          → EndsIn terms
              (elim o as (λ _. Option VpnDataPathHandle) [ none ↦ none | some (h', r) ↦ some h' ])
      ended none x = x
      ended (some (h', r)) (x, other) = x
  call-EndsIn h (encodes d packet_id packet max_datagram_len now) v bs =
      encode_ip_packet-IsSound h d packet_id packet max_datagram_len now v
  call-EndsIn h (expires now) v bs = expire_reassembly-IsSound terms h now v
  call-EndsIn h activates v bs = activate-IsSound terms h v
  call-EndsIn h deactivates v bs =
      let (h', ends, released) = deactivate-IsReleased terms h v in rw ends released.sound

-- ===== src/DataPath/Server/Opening.antt =====
-- src/vpn_data_path.rs, `new_policy_inactive`: a new data path joins the server.
use flowweave.DataPath.{
  vpn_max_ip_packet_len, vpn_min_ip_packet_len, VpnReassemblyLimits, VpnDataPathHandle,
  new_policy_inactive, reassembly_limits,
}
use flowweave.Reassembly.{no_stats, VpnReassembler}
use flowweave.DataPath.Server.{vpn_default_max_reassembly_bytes, Server, opens, serve}
use flowweave.Prelude.{
  ℕ, ◌≤◌, ◌≡◌, refl, ◌⊎◌, inl, inr, arith, ltb, leb, ◌==◌, Bool-cases, ◌&&◌, ◌||◌, Option, none,
  some, [], ◌∷◌, Result, ok, err,
}
use flowweave.Packet.{VpnPacketError, invalid_reassembly_limits}
use flowweave.Reassembly.Invariant.{IsValid, new-IsValid}
use flowweave.Identity.Policy.{VpnDataPolicy, VpnIdentityLimits}
use flowweave.DataPolicy.{VpnDataPolicyMetrics}
use flowweave.Quota.{VpnIdentityRateLimiter}
use flowweave.DataPath.Server.Shares.{total_bytes, total_packets, IsServer}
use flowweave.Reassembly

abbrev pub Serves : Option Server → Type 0
Serves none = ⊥
Serves (some s) = IsServer s

abbrev no_packets : VpnReassemblyLimits → VpnReassembler
no_packets limits = record { limits = limits; packets = []; buffered_bytes = 0; stats = no_stats }

new-cases :
    (limits : VpnReassemblyLimits)
    → (Reassembly.new limits ≡ ok (no_packets limits))
      ⊎ (Reassembly.new limits ≡ err invalid_reassembly_limits)
unfolding Reassembly.new
new-cases limits =
    elim (Bool-cases (
      limits.max_inflight_packets == 0
      || ltb limits.max_buffered_bytes vpn_max_ip_packet_len
      || limits.fragment_timeout == 0)) [
        | inl bad ↦ rw (Reassembly.new, bad) (inr refl)
        | inr fine ↦ rw (Reassembly.new, fine) (inl refl)
      ]

abbrev Opened : Server → Result VpnDataPathHandle VpnPacketError → Type 0
Opened s (err e) = Unit {0}
Opened s (ok h) = IsServer (record s { paths = h ∷ s.paths })

pub opened-Serves :
    (s : Server) (data_policy : VpnDataPolicy) (limits : VpnIdentityLimits)
    (packet_len generation : ℕ) (limiter : VpnIdentityRateLimiter)
    (policy_metrics : VpnDataPolicyMetrics)
    → IsServer s
    → limits.max_reassembly_bytes ≤ vpn_default_max_reassembly_bytes
    → Serves (serve s (opens data_policy limits packet_len generation limiter policy_metrics))
unfolding serve new_policy_inactive total_bytes total_packets
opened-Serves s data_policy limits packet_len generation limiter policy_metrics v small =
    served _ opened
  where
    served :
        (o : Result VpnDataPathHandle VpnPacketError)
        → Opened s o
        → Serves (elim o as (λ _. Option Server) [
          | err e ↦ some s
          | ok h ↦ some (record s { paths = h ∷ s.paths })
        ])
    served (err e) x = v
    served (ok h) x = x

    made :
        Reassembly.new (reassembly_limits limits.max_reassembly_bytes)
          ≡ ok (no_packets (reassembly_limits limits.max_reassembly_bytes))
        → IsValid (no_packets (reassembly_limits limits.max_reassembly_bytes))
    made e = new-IsValid (reassembly_limits limits.max_reassembly_bytes) _ (omega (arith, small)) e

    opened : Opened s (
        new_policy_inactive data_policy limits packet_len generation
          (record limiter { metrics = s.metrics })
          s.budget
          policy_metrics)
    opened =
        elim (Bool-cases
          (leb vpn_min_ip_packet_len packet_len && leb packet_len vpn_max_ip_packet_len)) [
            | inr bad ↦ rw (new_policy_inactive, bad) tt
            | inl fine ↦ elim (new-cases (reassembly_limits limits.max_reassembly_bytes)) [
              | inr bad ↦ rw (new_policy_inactive, fine, bad) tt
              | inl e ↦
                  rw (new_policy_inactive, fine, e)
                    (record {
                      bytes_held = omega (arith, v.bytes_held);
                      packets_held = omega (arith, v.packets_held);
                      bytes_bound = v.bytes_bound;
                      packets_bound = v.packets_bound;
                      byte_limit = v.byte_limit;
                      packet_limit = v.packet_limit;
                      own = (
                        record {
                          budget = refl;
                          path = record {
                            up = made e;
                            down = made e;
                            up_limits = refl;
                            down_limits = refl;
                          };
                          bytes_accounted = omega arith;
                          packets_accounted = omega arith;
                          bytes = omega arith;
                          packets = omega arith;
                        },
                        v.own,
                      );
                    })
            ]
          ]

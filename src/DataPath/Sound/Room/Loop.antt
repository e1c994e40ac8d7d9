-- ===== src/DataPath/Sound/Room/Loop.antt =====
-- src/vpn_data_path.rs, the loop of `make_identity_room`.
use flowweave.Prelude.{
  ℕ, zero, suc, ◌+◌, ◌≤◌, ◌<◌, increment, ◌≡◌, refl, sym, subst, ◌∙◌, ◌⊎◌, inl, inr, arith,
  if◌then◌else◌, Bool, true, false, not, ◌&&◌, Option, none, some, Result, ok, err,
}
use flowweave.Reassembly.{VpnReassembler, lookup, contains_packet}
use flowweave.DataPolicy.{VpnPacketDirection}
use flowweave.Quota.{
  VpnQuotaMetrics, VpnQuotaRejection, identity_inflight_limit, identity_reassembly_limit,
}
use flowweave.Quota.Budget.Holding.{Holds-same, Holds-shares}
use flowweave.DataPath.{
  VpnDataPathHandle, VpnDataPathState, reassembler, buffered_bytes, inflight_packets, evict_oldest,
  quota_metrics, set_metrics, set_state, exceeds, make_identity_room,
}
use flowweave.DataPath.Sound.{Terms, used_bytes, used_packets, IsSound, amounts}
use flowweave.DataPath.Sound.Room.{Thins, Thins-self, Thins-trans, Evicted, evict_oldest-cases}

-- What depends on the packet only by looking it up.
pub contains_packet-same :
    (r r' : VpnReassembler) (packet_id : ℕ)
    → lookup packet_id r'.packets ≡ lookup packet_id r.packets
    → contains_packet r' packet_id ≡ contains_packet r packet_id
unfolding contains_packet
contains_packet-same r r' packet_id e = rw (contains_packet, e) refl

module _ (terms : Terms) where
  -- The counters that the budget does not read.
  pub set_metrics-IsSound :
      (h : VpnDataPathHandle) (m : VpnQuotaMetrics)
      → IsSound h terms
      → m.current_reassembly_bytes ≡ (quota_metrics h).current_reassembly_bytes
      → m.active_reassembly_packets ≡ (quota_metrics h).active_reassembly_packets
      → IsSound (set_metrics h m) terms
  set_metrics-IsSound h m v e e' = record {
    backed = record {
      kept = v.backed.kept;
      path = v.backed.path;
      held =
          Holds-same h.global_budget terms.other_bytes terms.other_packets (quota_metrics h) m
            h.state.accounted_bytes h.state.accounted_packets v.backed.held e e';
      bytes = v.backed.bytes;
      packets = v.backed.packets;
    };
    bytes = v.bytes;
    packets = v.packets;
  }

  module _ (now packet_id : ℕ) (d : VpnPacketDirection) where
    pub set_state-IsSound :
        (h : VpnDataPathHandle) (s : VpnDataPathState)
        → IsSound h terms
        → Thins now h.max_reassembly_bytes d packet_id h.state s
        → IsSound (set_state h s) terms
    set_state-IsSound h s v t = record {
      backed = record {
        kept = v.backed.kept;
        path = t.path;
        held =
            Holds-shares h.global_budget terms.other_bytes terms.other_packets (quota_metrics h) _ _
              s.accounted_bytes s.accounted_packets v.backed.held (sym t.bytes_accounted)
              (sym t.packets_accounted);
        bytes = omega (arith, t.less_bytes, v.backed.bytes, t.bytes_accounted);
        packets = omega (arith, t.less_packets, v.backed.packets, t.packets_accounted);
      };
      bytes = omega (arith, t.less_bytes, v.bytes);
      packets = omega (arith, t.less_packets, v.packets);
    }

    module _ (bytes packets : ℕ) where
      -- The call comes to an end: with the room, or refused with the path sound.
      abbrev pub Roomy :
          VpnDataPathHandle
          → Option (VpnDataPathHandle × Result (Unit {0}) VpnQuotaRejection)
          → Type 0
      Roomy h none = ⊥
      Roomy h (some (h', err e)) = IsSound h' terms
      Roomy h (some (h', ok done)) =
          (s : VpnDataPathState) × (h' ≡ set_state h s)
          × Thins now h.max_reassembly_bytes d packet_id h.state s
          × (used_bytes s + bytes ≤ h.max_reassembly_bytes)
          × (used_packets s + packets ≤ 1024)

      Roomy-later :
          (h : VpnDataPathHandle) (s : VpnDataPathState)
          → Thins now h.max_reassembly_bytes d packet_id h.state s
          → (o : Option (VpnDataPathHandle × Result (Unit {0}) VpnQuotaRejection))
          → Roomy (set_state h s) o
          → Roomy h o
      Roomy-later h s t none r = r
      Roomy-later h s t (some (h', err e)) r = r
      Roomy-later h s t (some (h', ok done)) (s', e, t', b, p) =
          (s', e, Thins-trans now h.max_reassembly_bytes d packet_id h.state s s' t t', b, p)

      -- One round, given what the next ones come to.
      round_end :
          (h : VpnDataPathHandle)
          → IsSound h terms
          → (count_exceeded bytes_exceeded evicted : Bool)
            (rest : Option (VpnDataPathHandle × Result (Unit {0}) VpnQuotaRejection))
          → exceeds (inflight_packets h.state) packets 1024 ≡ count_exceeded
          → exceeds (buffered_bytes h.state) bytes h.max_reassembly_bytes ≡ bytes_exceeded
          → (evicted ≡ true → Roomy h rest)
          → Roomy h (
              if not count_exceeded && not bytes_exceeded
              then some (h, ok tt)
              else if evicted
              then rest
              else if count_exceeded
              then some (
                set_metrics h (record (quota_metrics h) {
                  identity_inflight_rejections =
                      increment (quota_metrics h).identity_inflight_rejections;
                }),
                err identity_inflight_limit,
              )
              else some (
                set_metrics h (record (quota_metrics h) {
                  identity_reassembly_rejections =
                      increment (quota_metrics h).identity_reassembly_rejections;
                }),
                err identity_reassembly_limit,
              ))
      round_end h v false false evicted rest e e' go =
          let (b, p) = amounts terms h v.backed in
          (
            h.state,
            refl,
            Thins-self now h.max_reassembly_bytes d packet_id h.state v.backed.path,
            inside bytes b e',
            inside packets p e,
          )
        where
          inside :
              {used value limit : ℕ}
              → (more : ℕ) → value ≡ used
              → exceeds value more limit ≡ false
              → used + more ≤ limit
          inside more same fits = ground arith
      round_end h v true c true rest e e' go = go refl
      round_end h v false true true rest e e' go = go refl
      round_end h v true c false rest e e' go = set_metrics-IsSound h _ v refl refl
      round_end h v false true false rest e e' go = set_metrics-IsSound h _ v refl refl

      -- On a sound data path, and with more rounds than packets, the loop comes to an end: with room for the bytes and the packets
      -- inside the limits of the identity, the packet of the fragment untouched, or refused.
      pub make_identity_room-Roomy :
          (rounds : ℕ) (h : VpnDataPathHandle) (existing_packet : Bool)
          → IsSound h terms
          → used_packets h.state < rounds
          → existing_packet ≡ contains_packet (reassembler h.state d) packet_id
          → Roomy h (make_identity_room rounds h d packet_id existing_packet bytes packets)
      unfolding make_identity_room
      make_identity_room-Roomy zero h existing v enough e = absurd (omega (arith, enough))
      make_identity_room-Roomy (suc rounds) h existing v enough e =
          round_end h v _ _ _ _ refl refl (λ went.
            next (λ s w f e'. make_identity_room-Roomy rounds (set_state h s) existing w f e') went
              (subst Cases (sym e)
                (evict_oldest-cases now h.max_reassembly_bytes packet_id d h.state v.backed.path)))
        where
          Cases : Bool → Type 0
          Cases x =
              let o = evict_oldest h.state d packet_id x in
              (o.1 ≡ false) ⊎ Evicted now h.max_reassembly_bytes d packet_id h.state o

          next :
              ((s : VpnDataPathState)
                → IsSound (set_state h s) terms
                → used_packets s < rounds
                → existing ≡ contains_packet (reassembler s d) packet_id
                → Roomy
                    (set_state h s)
                    (make_identity_room rounds (set_state h s) d packet_id existing bytes packets))
              → (evict_oldest h.state d packet_id existing).1 ≡ true
              → Cases existing
              → Roomy h (
                  make_identity_room rounds
                    (set_state h (evict_oldest h.state d packet_id existing).0)
                    d
                    packet_id
                    existing
                    bytes
                    packets)
          next go went (inl stays) = absurd (clash went stays)
            where
              clash : {b : Bool} → b ≡ true → b ≡ false → ⊥
              clash x y = ground arith
          next go went (inr (evicted, t, fewer)) =
              let s = (evict_oldest h.state d packet_id existing).0 in
              Roomy-later h s t _ (
                go s (set_state-IsSound h s v t) (omega (arith, enough, fewer)) (
                  e
                  ∙ sym (
                      contains_packet-same (reassembler h.state d) (reassembler s d) packet_id
                        t.same)))

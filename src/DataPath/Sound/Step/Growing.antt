-- ===== src/DataPath/Sound/Step/Growing.antt =====
-- src/vpn_data_path.rs, `ingest_datagram` as a whole.
use flowweave.DataPath.Ingest.{
  reserve_and_ingest, after_shrink, ingest_in_place, Outcome, ingest_growing, ingest_accepted,
}
use flowweave.DataPath.{
  quota, VpnDataPathHandle, VpnDataPathState, reassembler, set_reassembler, set_state,
}
use flowweave.Prelude.{
  ℕ, zero, suc, ◌+◌, ◌≤◌, IsByte, ◌≡◌, refl, sym, subst, ◌∙◌, arith, if◌then◌else◌, Bool, true,
  false, not, ◌&&◌, Option, none, some, List, All, Result, ok, err,
}
use flowweave.Packet.{VpnPacketError}
use flowweave.Fragment.{VpnFragment, decode_vpn_ip_fragment}
use flowweave.Reassembly.{
  VpnReassembler, lookup, contains_packet, additional_buffered_bytes, fragment_will_complete,
}
use flowweave.Reassembly.Ingest.{ingest}
use flowweave.Reassembly.Invariant.{IsValid}
use flowweave.Reassembly.Preservation.{ingest-IsValid}
use flowweave.Reassembly.Growth.{Grows}
use flowweave.Reassembly.Growth.Foresight.{Foreseen}
use flowweave.Reassembly.Fresh.{IsFresh}
use flowweave.Reassembly.Fresh.Datagram.{ingest-Foreseen}
use flowweave.DataPolicy.{VpnPacketDirection, uplink, downlink}
use flowweave.Quota.{VpnQuotaMetrics, VpnQuotaRejection}
use flowweave.DataPath.Sound.{
  Terms, used_bytes, used_packets, IsPath, IsSound, EndsSound, shrunk, side-IsValid,
  set_reassembler-IsPath, amounts,
}
use flowweave.DataPath.Sound.Room.{Thins}
use flowweave.DataPath.Sound.Room.Loop.{
  Roomy, make_identity_room-Roomy, set_state-IsSound, contains_packet-same,
}
use flowweave.DataPath.Sound.Step.{Expects, after_shrink-IsSound, ingest_in_place-EndsSound}
use flowweave.DataPath.Sound.Step.Reserving.{reserve_and_ingest-EndsSound}

-- The answers depend on the packet only by looking it up.
module _ (r r' : VpnReassembler) (f : VpnFragment)
    (e : lookup f.packet_id r'.packets ≡ lookup f.packet_id r.packets) where
  additional_buffered_bytes-same : additional_buffered_bytes r' f ≡ additional_buffered_bytes r f
  unfolding additional_buffered_bytes
  additional_buffered_bytes-same = rw (additional_buffered_bytes, e) refl

  fragment_will_complete-same : fragment_will_complete r' f ≡ fragment_will_complete r f
  unfolding fragment_will_complete
  fragment_will_complete-same = rw (fragment_will_complete, e) refl

-- The amounts that are accounted are no part of what is expected.
Expects-shrunk :
    (h : VpnDataPathHandle) (m : VpnQuotaMetrics) (d : VpnPacketDirection) (now : ℕ)
    (datagram : List ℕ) (bytes packets : ℕ)
    → Expects h d now datagram bytes packets
    → Expects (shrunk h m) d now datagram bytes packets
unfolding reassembler set_reassembler
Expects-shrunk h m uplink now datagram bytes packets x = record {
  grows = x.grows;
  bytes = x.bytes;
  packets = x.packets;
}
Expects-shrunk h m downlink now datagram bytes packets x = record {
  grows = x.grows;
  bytes = x.bytes;
  packets = x.packets;
}

module _ (h : VpnDataPathHandle) (d : VpnPacketDirection) (now : ℕ) (datagram : List ℕ)
    (n : ℕ) where
  -- The room that is made is the room that is taken.
  expected :
      (existing completes : Bool)
      → IsPath h.max_reassembly_bytes h.state
      → All IsByte datagram
      → Grows
          (suc n)
          (if existing then 0 else 1)
          (reassembler h.state d)
          (ingest (reassembler h.state d) now datagram).0
      → (completes ≡ true
          → Grows 0 0 (reassembler h.state d) (ingest (reassembler h.state d) now datagram).0)
      → used_bytes h.state + (if completes then 0 else suc n) ≤ h.max_reassembly_bytes
      → used_packets h.state + (if not existing && not completes then 1 else 0) ≤ 1024
      → Expects h d now datagram (suc n) (if existing then 0 else 1)
  expected existing completes p bs g whole b q = record {
    grows = g;
    bytes = within_bytes completes whole b;
    packets = within_packets existing completes g whole q;
  }
    where
      r' : VpnReassembler
      r' = (ingest (reassembler h.state d) now datagram).0

      valid : IsValid r'
      valid =
          ingest-IsValid (reassembler h.state d) now datagram bs
            (side-IsValid h.max_reassembly_bytes h.state p d)

      within_bytes :
          (completes : Bool)
          → (completes ≡ true → Grows 0 0 (reassembler h.state d) r')
          → used_bytes h.state + (if completes then 0 else suc n) ≤ h.max_reassembly_bytes
          → used_bytes (set_reassembler h.state d r') ≤ h.max_reassembly_bytes
      within_bytes true whole b = omega (
        arith,
        b,
        (set_reassembler-IsPath h.max_reassembly_bytes h.state d r' 0 0 p valid (whole refl)).1,
      )
      within_bytes false whole b = omega (
        arith,
        b,
        (set_reassembler-IsPath h.max_reassembly_bytes h.state d r' (suc n) _ p valid g).1,
      )

      within_packets :
          (existing completes : Bool)
          → Grows (suc n) (if existing then 0 else 1) (reassembler h.state d) r'
          → (completes ≡ true → Grows 0 0 (reassembler h.state d) r')
          → used_packets h.state + (if not existing && not completes then 1 else 0) ≤ 1024
          → used_packets (set_reassembler h.state d r') ≤ 1024
      within_packets existing true g whole q = omega (
        arith,
        q,
        (set_reassembler-IsPath h.max_reassembly_bytes h.state d r' 0 0 p valid (whole refl)).2,
      )
      within_packets true false g whole q = omega (
        arith,
        q,
        (set_reassembler-IsPath h.max_reassembly_bytes h.state d r' (suc n) 0 p valid g).2,
      )
      within_packets false false g whole q = omega (
        arith,
        q,
        (set_reassembler-IsPath h.max_reassembly_bytes h.state d r' (suc n) 1 p valid g).2,
      )

module _ (terms : Terms) where
  module _ (h : VpnDataPathHandle) (d : VpnPacketDirection) (now : ℕ) (datagram : List ℕ)
      (f : VpnFragment) where
    -- A fragment that brings bytes: the room is made, reserved and taken.
    ingest_growing-EndsSound :
        (n : ℕ)
        → IsSound h terms
        → All IsByte datagram
        → IsFresh now (reassembler h.state d)
        → decode_vpn_ip_fragment datagram ≡ ok f
        → additional_buffered_bytes (reassembler h.state d) f ≡ ok (suc n)
        → EndsSound terms (ingest_growing h d now datagram f (suc n))
    unfolding ingest_growing
    ingest_growing-EndsSound n v bs fresh decoded answer = roomy _ (
        make_identity_room-Roomy terms now f.packet_id d _ _ _ h existing v
          (omega (arith, (amounts terms h v.backed).1)) refl)
      where
        r : VpnReassembler
        r = reassembler h.state d

        existing : Bool
        existing = contains_packet r f.packet_id

        completes : Bool
        completes = fragment_will_complete r f

        taken :
            (s : VpnDataPathState)
            → Thins now h.max_reassembly_bytes d f.packet_id h.state s
            → used_bytes s + (if completes then 0 else suc n) ≤ h.max_reassembly_bytes
            → used_packets s + (if not existing && not completes then 1 else 0) ≤ 1024
            → Expects (set_state h s) d now datagram (suc n) (if existing then 0 else 1)
        taken s t b q =
            let r' = reassembler s d in
            let (g, whole) : Foreseen r' (ingest r' now datagram).0 f (ok (suc n)) =
              subst (Foreseen r' (ingest r' now datagram).0 f)
                (additional_buffered_bytes-same r r' f t.same ∙ answer)
                (ingest-Foreseen r' now datagram f bs decoded
                  (side-IsValid h.max_reassembly_bytes s t.path d) (t.fresh fresh)) in
            expected (set_state h s) d now datagram n existing completes t.path bs
              (subst (λ x. Grows (suc n) (if x then 0 else 1) r' (ingest r' now datagram).0)
                (contains_packet-same r r' f.packet_id t.same) g)
              (λ c. whole (fragment_will_complete-same r r' f t.same ∙ c)) b q

        roomy :
            (o : Option (VpnDataPathHandle × Result (Unit {0}) VpnQuotaRejection))
            → Roomy terms now f.packet_id d
                (if completes then 0 else suc n)
                (if not existing && not completes then 1 else 0)
                h
                o
            → EndsSound terms (elim o as (λ _. Option Outcome) [
              | none ↦ none
              | some (h', err e) ↦ some (h', err (quota e))
              | some (h', ok done) ↦
                  after_shrink h' (λ h''.
                    reserve_and_ingest h'' d now datagram (suc n) (if existing then 0 else 1))
            ])
        roomy none x = x
        roomy (some (h', err e)) x = (x, λ y. y)
        roomy (some (h', ok done)) (s, e, t, b, q) =
            let w = set_state-IsSound terms now f.packet_id d h s v t in
            let goal : VpnDataPathHandle → Type 0 = λ x. EndsSound terms (
              after_shrink x (λ h''.
                reserve_and_ingest h'' d now datagram (suc n) (if existing then 0 else 1))) in
            subst goal (sym e) (
              after_shrink-IsSound terms (set_state h s) _ w (λ m sound.
                reserve_and_ingest-EndsSound terms (shrunk (set_state h s) m) d now datagram (suc n)
                  _ sound bs
                  (Expects-shrunk (set_state h s) m d now datagram (suc n) _ (taken s t b q))))

    pub ingest_accepted-EndsSound :
        IsSound h terms
        → All IsByte datagram
        → IsFresh now (reassembler h.state d)
        → decode_vpn_ip_fragment datagram ≡ ok f
        → EndsSound terms (ingest_accepted h d now datagram f)
    unfolding ingest_accepted
    ingest_accepted-EndsSound v bs fresh decoded = answered _ refl
      where
        r : VpnReassembler
        r = reassembler h.state d

        foreseen : Foreseen r (ingest r now datagram).0 f (additional_buffered_bytes r f)
        foreseen =
            ingest-Foreseen r now datagram f bs decoded
              (side-IsValid h.max_reassembly_bytes h.state v.backed.path d) fresh

        answered :
            (o : Result ℕ VpnPacketError)
            → additional_buffered_bytes r f ≡ o
            → EndsSound terms (elim o as (λ _. Option Outcome) [
              | err e ↦ ingest_in_place h d now datagram
              | ok zero ↦ ingest_in_place h d now datagram
              | ok (suc n) ↦ ingest_growing h d now datagram f (suc n)
            ])
        answered (err x) e =
            ingest_in_place-EndsSound terms h d now datagram v bs
              (subst (Foreseen r _ f) e foreseen)
        answered (ok zero) e =
            ingest_in_place-EndsSound terms h d now datagram v bs
              (subst (Foreseen r _ f) e foreseen)
        answered (ok (suc n)) e = ingest_growing-EndsSound n v bs fresh decoded e

-- ===== src/DataPolicy/Verdict.antt =====
-- src/vpn_data_policy.rs: the verdict on a packet in each direction.
use flowweave.Prelude.{
  ap₂, ℕ, IsByte, ◌≡◌, refl, sym, ap, subst, ◌∙◌, ◌↔◌, inl, inr, arith, Result-cases, Bool, true,
  false, List, All, Result, ok, err,
}
use flowweave.Packet.{VpnIpPacketMeta, VpnPacketError, inspect_vpn_ip_packet}
use flowweave.Packet.Shape.{IsIpPacket, inspect_vpn_ip_packet-ok_iff}
use flowweave.Identity.Policy.{VpnDataPolicy, permits_source, allows_destination}
use flowweave.DataPolicy.{
  VpnPacketDirection, uplink, downlink, VpnDataPolicyError, packet, uplink_source_spoofed,
  destination_policy_rejected, downlink_destination_mismatch, validate_vpn_ip_packet_policy,
}
use flowweave.DataPolicy.Permission.{
  client_side, network_side, IsOwn, InSome, IsCanonical, permits_source_iff, allows_destination_iff,
  network_side-IsAddress,
}

-- The refusal of an address on the client's side that is not the client's.
abbrev pub mismatch : VpnPacketDirection → VpnDataPolicyError
mismatch uplink = uplink_source_spoofed
mismatch downlink = downlink_destination_mismatch

-- By the two tests on the addresses.
abbrev judged :
    VpnPacketDirection → Bool → Bool → VpnIpPacketMeta → Result VpnIpPacketMeta VpnDataPolicyError
judged direction false allowed meta = err (mismatch direction)
judged direction true false meta = err destination_policy_rejected
judged direction true true meta = ok meta

judged-ok :
    (direction : VpnPacketDirection) (own allowed : Bool) (found meta : VpnIpPacketMeta)
    → judged direction own allowed found ≡ ok meta
    → (own ≡ true) × (allowed ≡ true) × (found ≡ meta)
judged-ok direction false allowed found meta e = cc
judged-ok direction true false found meta e = cc
judged-ok direction true true found meta e = (refl, refl, ground arith)

judged-mismatch :
    (direction : VpnPacketDirection) (own allowed : Bool) (found : VpnIpPacketMeta)
    → judged direction own allowed found ≡ err (mismatch direction)
    → own ≡ false
judged-mismatch direction false allowed found e = refl
judged-mismatch uplink true false found e = cc
judged-mismatch downlink true false found e = cc
judged-mismatch direction true true found e = cc

judged-destination :
    (direction : VpnPacketDirection) (own allowed : Bool) (found : VpnIpPacketMeta)
    → judged direction own allowed found ≡ err destination_policy_rejected
    → (own ≡ true) × (allowed ≡ false)
judged-destination uplink false allowed found e = cc
judged-destination downlink false allowed found e = cc
judged-destination direction true false found e = (refl, refl)
judged-destination direction true true found e = cc

packet-mismatch :
    (direction : VpnPacketDirection) (x : VpnPacketError)
    → ◌≡◌ {A = Result VpnIpPacketMeta VpnDataPolicyError}
        (err (packet x))
        (err (mismatch direction))
    → ⊥
packet-mismatch uplink x e = cc
packet-mismatch downlink x e = cc

packet-rejected :
    (x : VpnPacketError)
    → ◌≡◌ {A = Result VpnIpPacketMeta VpnDataPolicyError}
        (err (packet x))
        (err destination_policy_rejected)
    → ⊥
packet-rejected x e = cc

contrary : {x : Bool} → x ≡ true → x ≡ false → ⊥
contrary e f = cc

not_true : (x : Bool) → ¬ (x ≡ true) → x ≡ false
not_true true n = absurd (n refl)
not_true false n = refl

judged_accepted :
    (policy : VpnDataPolicy) (direction : VpnPacketDirection) (bytes : List ℕ)
    (meta : VpnIpPacketMeta)
    → inspect_vpn_ip_packet bytes ≡ ok meta
    → validate_vpn_ip_packet_policy policy direction bytes
      ≡ judged direction
          (permits_source policy (client_side direction meta))
          (allows_destination policy (network_side direction meta))
          meta
unfolding validate_vpn_ip_packet_policy
judged_accepted policy uplink bytes meta e = ground arith
judged_accepted policy downlink bytes meta e = ground arith

judged_malformed :
    (policy : VpnDataPolicy) (direction : VpnPacketDirection) (bytes : List ℕ) (x : VpnPacketError)
    → inspect_vpn_ip_packet bytes ≡ err x
    → validate_vpn_ip_packet_policy policy direction bytes ≡ err (packet x)
unfolding validate_vpn_ip_packet_policy
judged_malformed policy uplink bytes x e = ground arith
judged_malformed policy downlink bytes x e = ground arith

module _ (policy : VpnDataPolicy) (direction : VpnPacketDirection) (bytes : List ℕ)
    (canonical : All IsCanonical policy.allowed_destinations) (octets : All IsByte bytes) where
  allowed_iff :
      (meta : VpnIpPacketMeta)
      → IsIpPacket bytes meta
      → (allows_destination policy (network_side direction meta) ≡ true)
        ↔ InSome policy.allowed_destinations (network_side direction meta)
  allowed_iff meta v =
      allows_destination_iff policy (network_side direction meta) canonical
        (network_side-IsAddress direction bytes meta octets v)

  passes :
      (meta : VpnIpPacketMeta)
      → validate_vpn_ip_packet_policy policy direction bytes ≡ ok meta
      → IsIpPacket bytes meta
        × IsOwn policy (client_side direction meta)
        × InSome policy.allowed_destinations (network_side direction meta)
  passes meta e = elim (Result-cases (inspect_vpn_ip_packet bytes)) [
    | inr (x, i) ↦ absurd (no (sym (judged_malformed policy direction bytes x i) ∙ e))
    | inl (found, i) ↦
        let (own, allowed, same) =
          judged-ok direction _ _ found meta
            (sym (judged_accepted policy direction bytes found i) ∙ e) in
        let v = (inspect_vpn_ip_packet-ok_iff bytes found).0 i in
        subst
          (λ m.
            IsIpPacket bytes m
            × IsOwn policy (client_side direction m)
            × InSome policy.allowed_destinations (network_side direction m))
          same
          (
            v,
            (permits_source_iff policy (client_side direction found)).0 own,
            (allowed_iff found v).0 allowed,
          )
  ]
    where
      no :
          {x : VpnPacketError}
          → ◌≡◌ {A = Result VpnIpPacketMeta VpnDataPolicyError} (err (packet x)) (ok meta)
          → ⊥
      no p = cc

  -- Where the policy's networks are canonical, and the packet consists of bytes: it passes in a direction,
  -- with certain addresses, exactly if it is a well-formed IPv4 or IPv6 packet with these addresses, the
  -- one on the client's side (the source of an uplink packet, the destination of a downlink packet) is
  -- the policy's client address of its family, and the other one has the first `prefix_len` bits of
  -- an allowed network of its family.
  pub validate_vpn_ip_packet_policy-ok_iff :
      (meta : VpnIpPacketMeta)
      → (validate_vpn_ip_packet_policy policy direction bytes ≡ ok meta) ↔ (
          IsIpPacket bytes meta
          × IsOwn policy (client_side direction meta)
          × InSome policy.allowed_destinations (network_side direction meta))
  validate_vpn_ip_packet_policy-ok_iff meta = (
    passes meta,
    λ (v, own, allowed).
        judged_accepted policy direction bytes meta ((inspect_vpn_ip_packet-ok_iff bytes meta).1 v)
        ∙ ap₂ (λ x y. judged direction x y meta)
            ((permits_source_iff policy (client_side direction meta)).1 own)
            ((allowed_iff meta v).1 allowed),
  )

  mismatched :
      validate_vpn_ip_packet_policy policy direction bytes ≡ err (mismatch direction)
      → (meta : VpnIpPacketMeta) × IsIpPacket bytes meta
        × (¬ IsOwn policy (client_side direction meta))
  mismatched e = elim (Result-cases (inspect_vpn_ip_packet bytes)) [
    | inr (x, i) ↦
        absurd (packet-mismatch direction x (sym (judged_malformed policy direction bytes x i) ∙ e))
    | inl (found, i) ↦
        let other =
          judged-mismatch direction _ _ found
            (sym (judged_accepted policy direction bytes found i) ∙ e) in
        (
          found,
          (inspect_vpn_ip_packet-ok_iff bytes found).0 i,
          λ own. contrary ((permits_source_iff policy (client_side direction found)).1 own) other,
        )
  ]

  rejected :
      validate_vpn_ip_packet_policy policy direction bytes ≡ err destination_policy_rejected
      → (meta : VpnIpPacketMeta) × IsIpPacket bytes meta
        × IsOwn policy (client_side direction meta)
        × (¬ InSome policy.allowed_destinations (network_side direction meta))
  rejected e = elim (Result-cases (inspect_vpn_ip_packet bytes)) [
    | inr (x, i) ↦
        absurd (packet-rejected x (sym (judged_malformed policy direction bytes x i) ∙ e))
    | inl (found, i) ↦
        let (own, other) =
          judged-destination direction _ _ found
            (sym (judged_accepted policy direction bytes found i) ∙ e) in
        let v = (inspect_vpn_ip_packet-ok_iff bytes found).0 i in
        (
          found,
          v,
          (permits_source_iff policy (client_side direction found)).0 own,
          λ allowed. contrary ((allowed_iff found v).1 allowed) other,
        )
  ]

  -- Where the policy's networks are canonical, and the packet consists of bytes, the packet is refused:
  -- as a spoofed source (uplink) or a mismatched destination (downlink) exactly if it is a well-formed
  -- IPv4 or IPv6 packet whose address on the client's side is not the policy's client address of its
  -- family; as a rejected destination exactly if that address is the client's and the other one is in
  -- no allowed network.
  pub validate_vpn_ip_packet_policy-err_iff :
      ((validate_vpn_ip_packet_policy policy direction bytes ≡ err (mismatch direction)) ↔ (
        (meta : VpnIpPacketMeta) × IsIpPacket bytes meta
        × (¬ IsOwn policy (client_side direction meta))))
      × ((validate_vpn_ip_packet_policy policy direction bytes ≡ err destination_policy_rejected)
          ↔ ((meta : VpnIpPacketMeta) × IsIpPacket bytes meta
              × IsOwn policy (client_side direction meta)
              × (¬ InSome policy.allowed_destinations (network_side direction meta))))
  validate_vpn_ip_packet_policy-err_iff = (
    (
      mismatched,
      λ (meta, v, other).
          judged_accepted policy direction bytes meta
            ((inspect_vpn_ip_packet-ok_iff bytes meta).1 v)
          ∙ ap
              (λ x.
                judged direction x (allows_destination policy (network_side direction meta)) meta)
              (not_true _ (λ own. other ((permits_source_iff policy _).0 own))),
    ),
    (
      rejected,
      λ (meta, v, own, other).
          judged_accepted policy direction bytes meta
            ((inspect_vpn_ip_packet-ok_iff bytes meta).1 v)
          ∙ ap₂ (λ x y. judged direction x y meta)
              ((permits_source_iff policy (client_side direction meta)).1 own)
              (not_true _ (λ allowed. other ((allowed_iff meta v).0 allowed))),
    ),
  )

-- ===== src/DataPath/Gate/Runs.antt =====
-- Runs of a data path on a whole packet in each direction of the tunnel.
use flowweave.Prelude.{
  to_be_bytes, from_be_bytes, ℕ, IsByte, ◌≡◌, refl, arith, Option, none, some, List, [], ◌∷◌, All,
  list_eq, ok,
}
use flowweave.Fragment.{chunks, decode_vpn_ip_fragment, encode_vpn_ip_fragments, encode_chunks}
use flowweave.DataPath.Gate.{
  admit_datagrams, IsAdmitted, ingest_datagram-IsAdmitted, encode_ip_packet-IsAdmitted,
}
use flowweave.Identity.Network.{contains, prefix_mask_v4, network_v4}
use flowweave.Quota.{
  admit_datagrams, sum_lengths, take_tokens, refill, packet_capacity, byte_capacity,
  record_admitted,
}
use flowweave.DataPath.Ingest.{
  after_shrink, deliver, ingest_accepted, ingest_decoded, ingest_growing, ingest_in_place,
  ingest_into, reserve_and_ingest, ingest_datagram, Outcome, encode_ip_packet, send_fragments,
}
use flowweave.DataPath.{
  reconcile_shrink, expire, buffered_bytes, inflight_packets, evict_choice, evict_oldest, excluded,
  make_identity_room, reassembler, set_reassembler, VpnDataPathHandle, VpnDataPacket,
}
use flowweave.Reassembly.Room.{remove_all, expired_ids, evict_while, make_room}
use flowweave.Quota.Budget.{release, subtract, reconcile, try_add_bounded, try_reserve}
use flowweave.DataPolicy.{record_result, validate_vpn_ip_packet_policy, uplink}
use flowweave.Identity.Policy.{allows_destination, permits_source}
use flowweave.Packet.{inspect_vpn_ip_packet, VpnIpPacketMeta}
use flowweave.Reassembly.Ingest.{
  add_fragment, assemble, complete, count_result, ingest, ingest_fragment, ingest_inner, merge,
  settle, store,
}
use flowweave.Reassembly.{
  additional_buffered_bytes, contains_packet, erase, evict_packet, fragment_will_complete, insert,
  insert_fragment, lookup, oldest, oldest_packet_updated_at, others, remove_packet, scan,
}
use flowweave.DataPolicy.Permission.{IsCanonical}
use flowweave.DataPath.Runs.{path}
use flowweave.Reassembly.Room
use flowweave.Packet
use flowweave.Fragment

-- From 10.77.0.2 to 1.1.1.1, a header without payload.
abbrev whole : List ℕ
whole = 0x45 ∷ 0 ∷ 0 ∷ 20 ∷ 0 ∷ 0 ∷ 0 ∷ 0 ∷ 64 ∷ 17 ∷ 0 ∷ 0 ∷ 10 ∷ 77 ∷ 0 ∷ 2 ∷ 1 ∷ 1 ∷ 1 ∷ 1 ∷ []

abbrev whole_packet : VpnDataPacket
whole_packet = record {
  bytes = whole;
  metadata = record {
    source = Packet.IpAddr.v4 0x0a4d_0002;
    destination = Packet.IpAddr.v4 0x0101_0101;
  };
}

-- It fits one datagram.
abbrev datagram : List ℕ
datagram = 0x46 ∷ 0x57 ∷ 0x49 ∷ 0x31 ∷ 0 ∷ 0 ∷ 0 ∷ 7 ∷ 0 ∷ 20 ∷ 0 ∷ 0 ∷ whole

abbrev handle_of : Option Outcome → VpnDataPathHandle
handle_of none = path
handle_of (some (h, r)) = h

path-IsCanonical : All IsCanonical path.data_policy.allowed_destinations
unfolding network_v4 prefix_mask_v4
path-IsCanonical = ((omega arith, refl), tt)

whole-IsByte : All IsByte whole
whole-IsByte = search arith

delivered :
    ingest_datagram path uplink datagram 5
    ≡ some (handle_of (ingest_datagram path uplink datagram 5), ok (some whole_packet))
unfolding contains prefix_mask_v4 ingest_datagram admit_datagrams sum_lengths take_tokens refill
    packet_capacity byte_capacity after_shrink reconcile_shrink expire buffered_bytes Room.expire
    remove_all expired_ids inflight_packets release subtract deliver ingest_accepted ingest_decoded
    ingest_growing ingest_in_place ingest_into reserve_and_ingest evict_choice evict_oldest excluded
    make_identity_room reassembler set_reassembler record_result validate_vpn_ip_packet_policy
    decode_vpn_ip_fragment allows_destination permits_source inspect_vpn_ip_packet from_be_bytes
    list_eq reconcile try_add_bounded try_reserve record_admitted add_fragment assemble complete
    count_result ingest ingest_fragment ingest_inner merge settle store evict_while make_room
    additional_buffered_bytes contains_packet erase evict_packet fragment_will_complete insert
    insert_fragment lookup oldest oldest_packet_updated_at others remove_packet scan
delivered = refl

ingest_datagram-IsAdmitted_example :
    IsAdmitted path uplink whole whole_packet.metadata
      (handle_of (ingest_datagram path uplink datagram 5))
ingest_datagram-IsAdmitted_example =
    ingest_datagram-IsAdmitted path uplink datagram 5
      (handle_of (ingest_datagram path uplink datagram 5)) whole_packet path-IsCanonical
      whole-IsByte delivered

sent :
    encode_ip_packet path uplink 7 whole 1200 5
    ≡ ((encode_ip_packet path uplink 7 whole 1200 5).0, ok (datagram ∷ []))
unfolding encode_ip_packet validate_vpn_ip_packet_policy inspect_vpn_ip_packet from_be_bytes
    permits_source allows_destination contains prefix_mask_v4 encode_vpn_ip_fragments encode_chunks
    send_fragments admit_datagrams sum_lengths take_tokens refill packet_capacity byte_capacity
    record_admitted record_result chunks to_be_bytes Fragment.datagram
sent = refl

encode_ip_packet-IsAdmitted_example :
    ((meta : VpnIpPacketMeta) × IsAdmitted path uplink whole meta
        (encode_ip_packet path uplink 7 whole 1200 5).0)
    × (encode_vpn_ip_fragments 7 whole 1200 ≡ ok (datagram ∷ []))
encode_ip_packet-IsAdmitted_example =
    encode_ip_packet-IsAdmitted path uplink 7 whole 1200 5
      (encode_ip_packet path uplink 7 whole 1200 5).0 (datagram ∷ []) path-IsCanonical whole-IsByte
      sent

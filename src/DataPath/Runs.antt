-- ===== src/DataPath/Runs.antt =====
-- Runs of data paths, and the theorems at concrete calls.
use flowweave.Prelude.{
  from_be_bytes, ℕ, ◌≡◌, refl, arith, ◌==◌, Bool, true, false, ◌&&◌, none, some, List, [], ◌∷◌,
  length, list_eq, ok,
}
use flowweave.Identity.Network.{VpnIpNetwork, contains, prefix_mask_v4}
use flowweave.Quota.{
  admit_datagrams, sum_lengths, take_tokens, refill, packet_capacity, byte_capacity,
  record_admitted, VpnIdentityRateLimiter, no_quota_metrics,
}
use flowweave.DataPath.Ingest.{
  after_shrink, deliver, ingest_accepted, ingest_decoded, ingest_growing, ingest_in_place,
  ingest_into, reserve_and_ingest, ingest_datagram, deactivate,
}
use flowweave.DataPath.{
  reconcile_shrink, expire, buffered_bytes, inflight_packets, evict_choice, evict_oldest, excluded,
  make_identity_room, reassembler, set_reassembler, VpnDataPathHandle, reassembly_limits,
}
use flowweave.Reassembly.Room.{remove_all, expired_ids, evict_while, make_room}
use flowweave.Quota.Budget.{
  release, subtract, reconcile, try_add_bounded, try_reserve, VpnGlobalReassemblyBudget,
}
use flowweave.DataPolicy.{
  record_result, validate_vpn_ip_packet_policy, VpnDataPolicyMetrics, uplink, downlink,
}
use flowweave.Fragment.{decode_vpn_ip_fragment}
use flowweave.Identity.Policy.{allows_destination, permits_source, VpnDataPolicy, default_limits}
use flowweave.Packet.{inspect_vpn_ip_packet}
use flowweave.Reassembly.Ingest.{
  add_fragment, assemble, complete, count_result, ingest, ingest_fragment, ingest_inner, merge,
  settle, store,
}
use flowweave.Reassembly.{
  additional_buffered_bytes, contains_packet, erase, evict_packet, fragment_will_complete, insert,
  insert_fragment, lookup, oldest, oldest_packet_updated_at, others, remove_packet, scan,
  VpnReassembler, no_stats, new,
}
use flowweave.Reassembly.Invariant.{IsValid, new-IsValid}
use flowweave.DataPath.Sound.{Terms, IsSound, EndsSound}
use flowweave.DataPath.Sound.Room.Loop.{Roomy, make_identity_room-Roomy}
use flowweave.DataPath.Sound.Calls.{ingest_datagram-EndsSound}
use flowweave.DataPath.Sound.Calls.Run.{
  ingests, activates, deactivates, IsReleased, deactivate-IsReleased,
}
use flowweave.DataPath.Server.{Server, Event, opens, calls, drops, serve_all}
use flowweave.DataPath.Server.Shares.{IsServer, total_bytes, total_packets}
use flowweave.DataPath.Server.Opening.{Serves}
use flowweave.DataPath.Server.Interleaving.{serve_all-Serves}
use flowweave.Reassembly.Room

abbrev budget : VpnGlobalReassemblyBudget
budget = record { byte_limit = 100_000; packet_limit = 2 }

abbrev no_reassembly : VpnReassembler
no_reassembly = record {
  limits = reassembly_limits 65535;
  packets = [];
  buffered_bytes = 0;
  stats = no_stats;
}

no_reassembly-IsValid : IsValid no_reassembly
unfolding new
no_reassembly-IsValid = new-IsValid (reassembly_limits 65535) no_reassembly (omega arith) refl

abbrev no_policy_counts : VpnDataPolicyMetrics
no_policy_counts = record {
  forwarded_uplink_packets = 0;
  forwarded_uplink_bytes = 0;
  forwarded_downlink_packets = 0;
  forwarded_downlink_bytes = 0;
  malformed_packet_rejections = 0;
  uplink_source_spoof_rejections = 0;
  destination_policy_rejections = 0;
  downlink_destination_rejections = 0;
}

-- The client at 10.77.0.2, which may reach any address.
abbrev anywhere : VpnDataPolicy
anywhere = record {
  client_ipv4 = some 0x0a4d_0002;
  client_ipv6 = none;
  allowed_destinations = VpnIpNetwork.v4 0 0 ∷ [];
}

abbrev full_tokens : VpnIdentityRateLimiter
full_tokens = record {
  state = record {
    limits = default_limits;
    packet_tokens = 100_000_000_000_000;
    byte_tokens = 100_000_000_000_000_000;
    last_refill = 0;
  };
  metrics = no_quota_metrics;
}

abbrev pub path : VpnDataPathHandle
path = record {
  data_policy = anywhere;
  max_ip_packet_len = 1280;
  max_reassembly_bytes = 65535;
  session_generation = 1;
  rate_limiter = full_tokens;
  global_budget = budget;
  policy_metrics = no_policy_counts;
  runtime_bound = false;
  state = record {
    active = true;
    up = no_reassembly;
    down = no_reassembly;
    accounted_bytes = 0;
    accounted_packets = 0;
  };
}

abbrev alone : Terms
alone = record {
  budget = budget;
  max_bytes = 65535;
  generation = 1;
  other_bytes = 0;
  other_packets = 0;
}

path-IsSound : IsSound path alone
path-IsSound = record {
  backed = record {
    kept = (refl, refl, refl);
    path = record {
      up = no_reassembly-IsValid;
      down = no_reassembly-IsValid;
      up_limits = refl;
      down_limits = refl;
    };
    held = record {
      bytes_held = refl;
      packets_held = refl;
      bytes_bound = omega arith;
      packets_bound = omega arith;
      byte_limit = omega arith;
      packet_limit = omega arith;
    };
    bytes = omega arith;
    packets = omega arith;
  };
  bytes = omega arith;
  packets = omega arith;
}

-- The two halves of a packet from 10.77.0.2 to 1.1.1.1.
abbrev first : List ℕ
first =
    0x46 ∷ 0x57 ∷ 0x49 ∷ 0x31 ∷ 0 ∷ 0 ∷ 0 ∷ 7 ∷ 0 ∷ 20 ∷ 0 ∷ 0 ∷ 0x45 ∷ 0 ∷ 0 ∷ 20 ∷ 0 ∷ 0 ∷ 0 ∷ 0
    ∷ 64 ∷ 17 ∷ []

abbrev second : List ℕ
second =
    0x46 ∷ 0x57 ∷ 0x49 ∷ 0x31 ∷ 0 ∷ 0 ∷ 0 ∷ 7 ∷ 0 ∷ 20 ∷ 0 ∷ 10 ∷ 0 ∷ 0 ∷ 10 ∷ 77 ∷ 0 ∷ 2 ∷ 1 ∷ 1
    ∷ 1 ∷ 1 ∷ []

-- The packet arrives with its second fragment, and the path holds nothing any more.
both_halves :
    elim (ingest_datagram path uplink second 5) as (λ _. Bool) [
      | none ↦ false
      | some (h, r) ↦ elim (ingest_datagram h uplink first 6) as (λ _. Bool) [
        | some (h', ok (some p)) ↦ length p.bytes == 20 && h'.state.accounted_bytes == 0
        | _ ↦ false
      ]
    ]
    ≡ true
unfolding contains prefix_mask_v4 ingest_datagram admit_datagrams sum_lengths take_tokens refill
    packet_capacity byte_capacity after_shrink reconcile_shrink expire buffered_bytes Room.expire
    remove_all expired_ids inflight_packets release subtract deliver ingest_accepted ingest_decoded
    ingest_growing ingest_in_place ingest_into reserve_and_ingest evict_choice evict_oldest excluded
    make_identity_room reassembler set_reassembler record_result validate_vpn_ip_packet_policy
    decode_vpn_ip_fragment allows_destination permits_source inspect_vpn_ip_packet from_be_bytes
    list_eq reconcile try_add_bounded try_reserve record_admitted add_fragment assemble complete
    count_result ingest ingest_fragment ingest_inner merge settle store evict_while make_room
    additional_buffered_bytes contains_packet erase evict_packet fragment_will_complete insert
    insert_fragment lookup oldest oldest_packet_updated_at others remove_packet scan
both_halves = refl

ingest_datagram-EndsSound_example : EndsSound alone (ingest_datagram path uplink second 5)
ingest_datagram-EndsSound_example =
    ingest_datagram-EndsSound alone path uplink second 5 path-IsSound (omega arith)

deactivate-IsReleased_example :
    (h : VpnDataPathHandle) × (deactivate path ≡ some h) × IsReleased alone h
deactivate-IsReleased_example = deactivate-IsReleased alone path path-IsSound

absent : false ≡ contains_packet (reassembler path.state uplink) 7
unfolding contains_packet lookup reassembler
absent = refl

make_identity_room-Roomy_example :
    Roomy alone 5 7 uplink 1200 1 path (make_identity_room 1 path uplink 7 false 1200 1)
make_identity_room-Roomy_example =
    make_identity_room-Roomy alone 5 7 uplink 1200 1 1 path false path-IsSound (omega arith) absent

abbrev server : Server
server = record { budget = budget; metrics = no_quota_metrics; paths = path ∷ [] }

server-IsServer : IsServer server
unfolding total_bytes total_packets
server-IsServer = record {
  bytes_held = refl;
  packets_held = refl;
  bytes_bound = omega arith;
  packets_bound = omega arith;
  byte_limit = omega arith;
  packet_limit = omega arith;
  own = (
    record {
      budget = refl;
      path = path-IsSound.backed.path;
      bytes_accounted = omega arith;
      packets_accounted = omega arith;
      bytes = omega arith;
      packets = omega arith;
    },
    tt,
  );
}

-- A second path opens while a packet is on its way on the first one.
abbrev day : List Event
day =
    calls 0 (ingests uplink second 5)
    ∷ opens anywhere default_limits 1280 2 full_tokens no_policy_counts
    ∷ calls 0 activates
    ∷ calls 1 (ingests uplink first 6)
    ∷ calls 0 (ingests downlink second 6)
    ∷ drops 1
    ∷ calls 0 deactivates
    ∷ []

serve_all-Serves_example : Serves (serve_all server day)
serve_all-Serves_example = serve_all-Serves server day server-IsServer (omega arith)

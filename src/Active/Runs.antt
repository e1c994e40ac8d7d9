-- ===== src/Active/Runs.antt =====
-- Runs of the session coordinator, and the theorems at concrete calls.
use flowweave.DataPath.Ingest.{deactivate, activate}
use flowweave.Active.Coordinator.{
  deactivate_path, take_out, reconcile_sessions, decide, decisions, Closes, is_current,
  release_if_current, replace_registry,
}
use flowweave.Identity.Runs.{print_b, print_a, client_a, client_b, two_clients}
use flowweave.Active.{
  ActiveSessions, VpnSessionCoordinator, VpnSessionReconcileReport, no_sessions, find, remove,
  has_same_session_policy, policy_eq, limits_eq,
}
use flowweave.Prelude.{
  ℕ, ◌-◌, ◌^◌, replicate, ◌≡◌, refl, arith, true, false, Option, none, some, List, [], ◌∷◌, length,
  list_eq, ok,
}
use flowweave.Identity.Registry.{VpnIdentityRegistry, authorize, find_key, nth}
use flowweave.Identity.Network.{network_eq}
use flowweave.Reassembly.{VpnReassembler, no_stats}
use flowweave.Session.{VpnNegotiatedSession}
use flowweave.DataPolicy.{VpnDataPolicyMetrics}
use flowweave.Quota.{
  IdentityRateState, no_quota_metrics, reconfigure, rate_state, refill, packet_capacity,
  byte_capacity,
}
use flowweave.DataPath.{VpnDataPathHandle, new_policy_inactive, reassembly_limits}
use flowweave.Active.Commit.{
  VpnCommittedSession, commit, validate_commit, limiter_of, install, deactivate_replaced,
}
use flowweave.Active.Generations.{granted, Ascends, granted-Ascends}
use flowweave.Active.Accounts.{Accounts, held_bytes, held_packets}
use flowweave.Active.Reload.{Apart}
use flowweave.Active.Reload.Loop.{Replaced, replace_registry-Replaced}
use flowweave.Active.Sessions.{release_if_current-commit}
use flowweave.Active.Events.{
  Event, allocates, closes_all, commits, releases, replaces, IsCoordinator, EndsIn, run,
  run-IsCoordinator,
}
use flowweave.Reassembly
use flowweave.DataPath
use flowweave.Quota

abbrev no_policy_counts : VpnDataPolicyMetrics
no_policy_counts = record {
  forwarded_uplink_packets = 0;
  forwarded_uplink_bytes = 0;
  forwarded_downlink_packets = 0;
  forwarded_downlink_bytes = 0;
  malformed_packet_rejections = 0;
  uplink_source_spoof_rejections = 0;
  destination_policy_rejections = 0;
  downlink_destination_rejections = 0;
}

-- No session is active, and others hold 1,500 bytes in two packets.
abbrev start : VpnSessionCoordinator
start = record {
  registry = two_clients;
  active = [];
  metrics = no_sessions;
  identity_quotas = [];
  next_generation = 5;
  quota_metrics = record no_quota_metrics {
    current_reassembly_bytes = 1500;
    active_reassembly_packets = 2;
  };
  data_metrics = no_policy_counts;
  global_budget = record { byte_limit = 100_000; packet_limit = 10 };
}

start-Accounts : Accounts start.quota_metrics [] 1500 2
unfolding held_bytes held_packets
start-Accounts = record { bytes = refl; packets = refl }

start-IsCoordinator : IsCoordinator 1500 2 start
start-IsCoordinator = record {
  once = tt;
  counted = refl;
  accounts = start-Accounts;
  roomy = omega arith;
}

-- A session of the client `a`.
abbrev session : ℕ → VpnNegotiatedSession
session generation = record {
  identity = client_a;
  fingerprint = print_a;
  accepted = record {
    selected_wire_version = 1;
    capabilities = 13;
    max_ip_packet_len = 1280;
    max_datagram_len = 1200;
    session_generation = generation;
    client_ipv4 = some 0x0a4d_0002;
    server_ipv4 = some 0x0a4d_0001;
    client_ipv6 = none;
    server_ipv6 = none;
  };
}

-- The registry without the client `a`.
abbrev only_b : VpnIdentityRegistry
only_b = record two_clients {
  identities = client_b ∷ [];
  by_client_id = (b'b' ∷ [], 0) ∷ [];
  by_fingerprint = (replicate 32 9, 0) ∷ [];
}

abbrev day : List Event
day =
    allocates
    ∷ commits (session 5) 1 10
    ∷ allocates
    ∷ commits (session 6) 2 20
    ∷ releases (b'a' ∷ []) 5
    ∷ replaces only_b 30
    ∷ closes_all
    ∷ []

run-IsCoordinator_example : EndsIn 1500 2 (run start day)
run-IsCoordinator_example = run-IsCoordinator 1500 2 start day start-IsCoordinator (omega arith)

-- Two generations are left.
abbrev nearly_exhausted : VpnSessionCoordinator
nearly_exhausted = record start { next_generation = 2 ^ 64 - 2 }

granted-Ascends_example :
    Ascends (2 ^ 64 - 2) (granted 3 nearly_exhausted) × (length (granted 3 nearly_exhausted) ≡ 2)
granted-Ascends_example = granted-Ascends 3 nearly_exhausted (omega arith)

-- The data path of the session 5, and its limiter.
abbrev full_tokens : IdentityRateState
full_tokens = record {
  limits = client_a.limits;
  packet_tokens = 100_000_000_000_000;
  byte_tokens = 134_217_728_000_000_000;
  last_refill = 10;
}

abbrev no_reassembly : VpnReassembler
no_reassembly = record {
  limits = reassembly_limits 8_388_608;
  packets = [];
  buffered_bytes = 0;
  stats = no_stats;
}

abbrev path_5 : VpnDataPathHandle
path_5 = record {
  data_policy = client_a.policy;
  max_ip_packet_len = 1280;
  max_reassembly_bytes = 8_388_608;
  session_generation = 5;
  rate_limiter = record { state = full_tokens; metrics = start.quota_metrics };
  global_budget = start.global_budget;
  policy_metrics = no_policy_counts;
  runtime_bound = false;
  state = record {
    active = true;
    up = no_reassembly;
    down = no_reassembly;
    accounted_bytes = 0;
    accounted_packets = 0;
  };
}

-- The coordinator with it.
abbrev with_5 : VpnSessionCoordinator
with_5 = record start {
  active = (b'a' ∷ [], record { session = session 5; connection = 1; data_path = path_5 }) ∷ [];
  metrics = record no_sessions { active_sessions = 1; total_committed = 1 };
  identity_quotas = (b'a' ∷ [], full_tokens) ∷ [];
}

-- With a session of the client `b` too, from when it was enabled.
abbrev with_both : VpnSessionCoordinator
with_both = record with_5 {
  active =
      (
        b'b' ∷ [],
        record {
          session = record (session 4) { identity = client_b; fingerprint = print_b };
          connection = 2;
          data_path = path_5;
        },
      )
      ∷ with_5.active;
}

with_both-Apart : Apart [] with_both.active
unfolding find list_eq
with_both-Apart = (refl, (refl, tt), (refl, tt, tt))

with_both-Accounts : Accounts with_both.quota_metrics with_both.active 1500 2
unfolding held_bytes held_packets
with_both-Accounts = record { bytes = refl; packets = refl }

-- A reload of the registry in which `b` is not enabled: `a` stays, and `b` goes.
replace_registry-Replaced_example :
    (c : VpnSessionCoordinator) × (report : VpnSessionReconcileReport) × (closed : Closes)
    × (replace_registry with_both two_clients 30 ≡ some (c, report, closed))
    × Replaced two_clients 1500 2 with_both c
replace_registry-Replaced_example =
    replace_registry-Replaced two_clients 1500 2 with_both 30 with_both-Apart with_both-Accounts

abbrev kept_active :
    Option (VpnSessionCoordinator × VpnSessionReconcileReport × Closes) → ActiveSessions
kept_active none = []
kept_active (some (c, report, closed)) = c.active

a_stays : kept_active (replace_registry with_both two_clients 30) ≡ with_5.active
unfolding replace_registry decisions decide authorize find_key nth has_same_session_policy policy_eq
    limits_eq network_eq reconcile_sessions take_out deactivate_path find remove deactivate list_eq
    DataPath.release_all_accounted Quota.Budget.release Quota.Budget.subtract DataPath.clear
a_stays = refl

abbrev committed_5 : VpnCommittedSession
committed_5 = record {
  report = record { session_generation = 5; replaced_generation = none };
  data_path = path_5;
}

five_commits : commit start (session 5) 1 10 ≡ some (with_5, [], ok committed_5)
unfolding commit validate_commit authorize find_key nth has_same_session_policy policy_eq limits_eq
    network_eq limiter_of find remove rate_state reconfigure refill packet_capacity byte_capacity
    new_policy_inactive Reassembly.new deactivate_replaced install activate list_eq
five_commits = refl

release_if_current-commit_example :
    (is_current with_5 (b'a' ∷ []) 5 ≡ true)
    × (is_current with_5 (b'a' ∷ []) 4 ≡ false)
    × (release_if_current with_5 (b'a' ∷ []) 4 ≡ some (with_5, false))
release_if_current-commit_example =
    release_if_current-commit start (session 5) 1 10 with_5 [] committed_5 4 five_commits differs
  where
    differs : ◌≡◌ {A = ℕ} 4 5 → ⊥
    differs e = omega (arith, e)

-- ===== src/Quota/Budget/Runs.antt =====
-- Runs of the global budget, and the theorems at concrete calls.
use flowweave.Prelude.{◌≡◌, refl, arith, some, Result, err}
use flowweave.Quota.{VpnQuotaMetrics, VpnQuotaRejection, no_quota_metrics, global_inflight_limit}
use flowweave.Quota.Budget.{
  VpnGlobalReassemblyBudget, Reservation, try_reserve, try_add_bounded, subtract, reconcile,
}
use flowweave.Quota.Budget.Holding.{Holds, Reserved, try_reserve-Reserved, reconcile-Holds}

abbrev small : VpnGlobalReassemblyBudget
small = record { byte_limit = 65535; packet_limit = 2 }

-- This holder has 1,000 bytes in one packet, others 2,000 in one.
abbrev shared : VpnQuotaMetrics
shared = record no_quota_metrics { current_reassembly_bytes = 3000; active_reassembly_packets = 2 }

shared-Holds : Holds small shared 1000 1 2000 1
shared-Holds = record {
  bytes_held = refl;
  packets_held = refl;
  bytes_bound = omega arith;
  packets_bound = omega arith;
  byte_limit = omega arith;
  packet_limit = omega arith;
}

-- A third packet is refused, and the bytes are given back.
third_refused :
    try_reserve small shared 500 1
    ≡ some (record shared { global_inflight_rejections = 1 }, err global_inflight_limit)
unfolding try_reserve try_add_bounded subtract
third_refused = refl

try_reserve-Reserved_example :
    (result : VpnQuotaMetrics × Result Reservation VpnQuotaRejection) × (try_reserve small shared
        500 1
      ≡ some result)
    × Reserved small 1000 1 500 1 2000 1 result
try_reserve-Reserved_example = try_reserve-Reserved small 2000 1 shared 1000 1 500 1 shared-Holds

-- Of 800 bytes and a packet, 300 of the bytes were reserved; 600 are there.
reconcile-Holds_example :
    (m : VpnQuotaMetrics) × (reconcile shared (record { bytes = 300; packets = 0 }) 700 1 600 1
      ≡ some (m, some (600, 1)))
    × Holds small m 600 1 2000 1
reconcile-Holds_example =
    reconcile-Holds small 2000 1 shared (record { bytes = 300; packets = 0 }) 700 1 600 1
      shared-Holds (omega arith) (omega arith)

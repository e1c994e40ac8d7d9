-- ===== src/Active/Accounts.antt =====
-- src/vpn_active_session.rs: what the active sessions hold of the global budget, and the removal of one.
use flowweave.Prelude.{
  ℕ, ◌+◌, ◌-◌, ◌≤◌, ◌≡◌, refl, inl, inr, arith, Bool-cases, some, List, [], ◌∷◌, list_eq,
}
use flowweave.Quota.{VpnQuotaMetrics}
use flowweave.Quota.Budget.{release}
use flowweave.Quota.Budget.Holding.{subtract-some}
use flowweave.DataPath.{VpnDataPathHandle, clear, release_all_accounted}
use flowweave.DataPath.Ingest.{deactivate}
use flowweave.Active.{VpnSessionCoordinator, ActiveVpnSession, ActiveSessions, find, remove}
use flowweave.Active.Coordinator.{deactivate_path, deactivate_all, take_out}

unfoldable pub held_bytes : ActiveSessions → ℕ
held_bytes [] = 0
held_bytes ((k, a) ∷ rest) = a.data_path.state.accounted_bytes + held_bytes rest

unfoldable pub held_packets : ActiveSessions → ℕ
held_packets [] = 0
held_packets ((k, a) ∷ rest) = a.data_path.state.accounted_packets + held_packets rest

-- The shared counters stand at what the sessions and others hold.
pub record Accounts (m : VpnQuotaMetrics) (active : ActiveSessions) (other_bytes other_packets : ℕ)
    : Type 0 where
  pub bytes : m.current_reassembly_bytes ≡ held_bytes active + other_bytes
  pub packets : m.active_reassembly_packets ≡ held_packets active + other_packets

released_metrics : VpnQuotaMetrics → VpnDataPathHandle → VpnQuotaMetrics
released_metrics m p = record m {
  current_reassembly_bytes = m.current_reassembly_bytes - p.state.accounted_bytes;
  active_reassembly_packets = m.active_reassembly_packets - p.state.accounted_packets;
}

deactivate_path-some :
    (m : VpnQuotaMetrics) (p : VpnDataPathHandle)
    → p.state.accounted_bytes ≤ m.current_reassembly_bytes
    → p.state.accounted_packets ≤ m.active_reassembly_packets
    → deactivate_path m p ≡ some (released_metrics m p)
unfolding deactivate_path deactivate release_all_accounted release clear released_metrics
deactivate_path-some m p h h' =
    rw
      (
        deactivate_path,
        deactivate,
        release_all_accounted,
        release,
        subtract-some m.current_reassembly_bytes p.state.accounted_bytes h,
        subtract-some m.active_reassembly_packets p.state.accounted_packets h',
      )
      refl

pub held-remove :
    (k : List ℕ) (a : ActiveVpnSession) (l : ActiveSessions)
    → find k l ≡ some a
    → (held_bytes l ≡ a.data_path.state.accounted_bytes + held_bytes (remove k l))
      × (held_packets l ≡ a.data_path.state.accounted_packets + held_packets (remove k l))
unfolding find remove held_bytes held_packets
held-remove k a [] e = cc
held-remove k a ((j, b) ∷ l) e = elim (Bool-cases (list_eq k j)) [
  | inl hit ↦ rw hit (ground (arith, hit), ground (arith, hit))
  | inr miss ↦
      let (x, y) = held-remove k a l (rw miss at e) in rw miss (omega (arith, x), omega (arith, y))
]

module _ (other_bytes other_packets : ℕ) where
  -- The session's share is given back, without a panic.
  pub deactivate_path-Accounts :
      (m : VpnQuotaMetrics) (l r : ActiveSessions) (a : ActiveVpnSession)
      → Accounts m l other_bytes other_packets
      → held_bytes l ≡ a.data_path.state.accounted_bytes + held_bytes r
      → held_packets l ≡ a.data_path.state.accounted_packets + held_packets r
      → (m' : VpnQuotaMetrics) × (deactivate_path m a.data_path ≡ some m')
        × Accounts m' r other_bytes other_packets
  unfolding released_metrics
  deactivate_path-Accounts m l r a v e e' = (
    released_metrics m a.data_path,
    deactivate_path-some m a.data_path (omega (arith, v.bytes, e)) (omega (arith, v.packets, e')),
    record { bytes = omega (arith, v.bytes, e); packets = omega (arith, v.packets, e') },
  )

  pub take_out-Accounts :
      (c : VpnSessionCoordinator) (k : List ℕ) (a : ActiveVpnSession)
      → Accounts c.quota_metrics c.active other_bytes other_packets
      → find k c.active ≡ some a
      → (m : VpnQuotaMetrics) × (take_out c k
          ≡ some (record c { active = remove k c.active; quota_metrics = m }, a.connection))
        × Accounts m (remove k c.active) other_bytes other_packets
  unfolding take_out
  take_out-Accounts c k a v e =
      let (x, y) = held-remove k a c.active e in
      let (m, ends, left) =
        deactivate_path-Accounts c.quota_metrics c.active (remove k c.active) a v x y in
      (m, rw (take_out, e, ends) refl, left)

  pub deactivate_all-Accounts :
      (m : VpnQuotaMetrics) (l : ActiveSessions)
      → Accounts m l other_bytes other_packets
      → (m' : VpnQuotaMetrics) × (deactivate_all m l ≡ some m')
        × Accounts m' [] other_bytes other_packets
  unfolding deactivate_all held_bytes held_packets
  deactivate_all-Accounts m [] v = (m, refl, v)
  deactivate_all-Accounts m ((k, a) ∷ l) v =
      let (m', ends, left) = deactivate_path-Accounts m ((k, a) ∷ l) l a v refl refl in
      let (m'', all_end, none_left) = deactivate_all-Accounts m' l left in
      (m'', rw (deactivate_all, ends) all_end, none_left)

-- ===== src/DataPath/Server/Shares.antt =====
-- The shares of the data paths add up, whatever the order of their calls.
use flowweave.Prelude.{
  ℕ, zero, suc, ◌+◌, ◌-◌, ◌≤◌, ◌≡◌, refl, subst, arith, some, List, [], ◌∷◌, All,
}
use flowweave.Quota.Budget.{
  VpnGlobalReassemblyBudget, vpn_max_global_reassembly_bytes, vpn_max_global_inflight_packets,
}
use flowweave.DataPath.{VpnDataPathHandle}
use flowweave.DataPath.Sound.{Terms, used_bytes, used_packets, IsPath}
use flowweave.DataPath.Server.{Server, get, put, remove}

unfoldable pub total_bytes : List VpnDataPathHandle → ℕ
total_bytes [] = 0
total_bytes (p ∷ ps) = p.state.accounted_bytes + total_bytes ps

unfoldable pub total_packets : List VpnDataPathHandle → ℕ
total_packets [] = 0
total_packets (p ∷ ps) = p.state.accounted_packets + total_packets ps

-- What does not depend on the other data paths.
pub record IsOwn (b : VpnGlobalReassemblyBudget) (p : VpnDataPathHandle) : Type 0 where
  pub budget : p.global_budget ≡ b
  pub path : IsPath p.max_reassembly_bytes p.state
  pub bytes_accounted : used_bytes p.state ≤ p.state.accounted_bytes
  pub packets_accounted : used_packets p.state ≤ p.state.accounted_packets
  pub bytes : used_bytes p.state ≤ p.max_reassembly_bytes
  pub packets : used_packets p.state ≤ 1024

-- The counters stand at the sums of the shares, inside the limits of the budget.
pub record IsServer (s : Server) : Type 0 where
  pub bytes_held : s.metrics.current_reassembly_bytes ≡ total_bytes s.paths
  pub packets_held : s.metrics.active_reassembly_packets ≡ total_packets s.paths
  pub bytes_bound : s.metrics.current_reassembly_bytes ≤ s.budget.byte_limit
  pub packets_bound : s.metrics.active_reassembly_packets ≤ s.budget.packet_limit
  pub byte_limit : s.budget.byte_limit ≤ vpn_max_global_reassembly_bytes
  pub packet_limit : s.budget.packet_limit ≤ vpn_max_global_inflight_packets
  pub own : All (IsOwn s.budget) s.paths

-- What the calls of one data path are under.
abbrev pub terms_of : Server → VpnDataPathHandle → Terms
terms_of s p = record {
  budget = s.budget;
  max_bytes = p.max_reassembly_bytes;
  generation = p.session_generation;
  other_bytes = total_bytes s.paths - p.state.accounted_bytes;
  other_packets = total_packets s.paths - p.state.accounted_packets;
}

pub total_bytes-get :
    (i : ℕ) (p h : VpnDataPathHandle) (ps : List VpnDataPathHandle)
    → get i ps ≡ some p
    → (total_bytes ps ≡ p.state.accounted_bytes + total_bytes (remove i ps))
      × (total_bytes (put i h ps) ≡ h.state.accounted_bytes + total_bytes (remove i ps))
unfolding get put remove total_bytes
total_bytes-get i p h [] e = cc
total_bytes-get zero p h (q ∷ ps) e = (ground arith, refl)
total_bytes-get (suc i) p h (q ∷ ps) e =
    let (a, b) = total_bytes-get i p h ps e in (omega (arith, a), omega (arith, b))

pub total_packets-get :
    (i : ℕ) (p h : VpnDataPathHandle) (ps : List VpnDataPathHandle)
    → get i ps ≡ some p
    → (total_packets ps ≡ p.state.accounted_packets + total_packets (remove i ps))
      × (total_packets (put i h ps) ≡ h.state.accounted_packets + total_packets (remove i ps))
unfolding get put remove total_packets
total_packets-get i p h [] e = cc
total_packets-get zero p h (q ∷ ps) e = (ground arith, refl)
total_packets-get (suc i) p h (q ∷ ps) e =
    let (a, b) = total_packets-get i p h ps e in (omega (arith, a), omega (arith, b))

module _ (P : VpnDataPathHandle → Type 0) where
  pub All-get :
      (i : ℕ) (p : VpnDataPathHandle) (ps : List VpnDataPathHandle)
      → get i ps ≡ some p
      → All P ps
      → P p
  unfolding get
  All-get i p [] e h = cc
  All-get zero p (q ∷ ps) e (x, h) = subst P (ground arith) x
  All-get (suc i) p (q ∷ ps) e (x, h) = All-get i p ps e h

  pub All-put :
      (i : ℕ) (p : VpnDataPathHandle) (ps : List VpnDataPathHandle)
      → P p
      → All P ps
      → All P (put i p ps)
  unfolding put
  All-put i p [] y h = h
  All-put zero p (q ∷ ps) y (x, h) = (y, h)
  All-put (suc i) p (q ∷ ps) y (x, h) = (x, All-put i p ps y h)

  pub All-remove : (i : ℕ) (ps : List VpnDataPathHandle) → All P ps → All P (remove i ps)
  unfolding remove
  All-remove i [] h = h
  All-remove zero (q ∷ ps) (x, h) = h
  All-remove (suc i) (q ∷ ps) (x, h) = (x, All-remove i ps h)

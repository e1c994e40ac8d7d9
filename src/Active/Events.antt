-- ===== src/Active/Events.antt =====
-- src/vpn_active_session.rs: any sequence of the coordinator's methods.
use flowweave.Active.{
  policy_changed, identity_revoked, VpnSessionCoordinator, VpnSessionCommitError, ActiveSessions,
  find, remove,
}
use flowweave.Packet.{vpn_min_ip_packet_len, vpn_max_ip_packet_len, VpnPacketError}
use flowweave.Prelude.{
  ℕ, ◌≤◌, ◌≡◌, refl, sym, ap, subst, ◌∙◌, inl, inr, arith, ltb, leb, ◌==◌, Bool-cases, Option-cases,
  Result-cases, if◌then◌else◌, Bool, true, false, Option, none, some, List, [], ◌∷◌, length, All,
  Result, ok, err,
}
use flowweave.Identity.Policy.{VpnDataPolicy, VpnIdentityLimits}
use flowweave.Identity.Registry.{VpnIdentity, VpnIdentityRegistry, authorize}
use flowweave.Session.{VpnNegotiatedSession}
use flowweave.DataPolicy.{VpnDataPolicyMetrics}
use flowweave.Quota.{VpnQuotaMetrics, VpnIdentityRateLimiter}
use flowweave.Quota.Budget.{VpnGlobalReassemblyBudget}
use flowweave.DataPath.{VpnDataPathHandle, new_policy_inactive}
use flowweave.DataPath.Ingest.{activate}
use flowweave.Active.Coordinator.{
  allocate_generation, release_if_current, is_current, replace_registry, close_all,
}
use flowweave.Active.Commit.{validate_commit, limiter_of, install, deactivate_replaced, commit}
use flowweave.Active.Accounts.{
  held_bytes, held_packets, Accounts, held-remove, deactivate_path-Accounts,
  deactivate_all-Accounts,
}
use flowweave.Active.Reload.{Apart}
use flowweave.Active.Reload.Loop.{replace_registry-Replaced}
use flowweave.Active.Keys.{
  remove-absent, remove-AbsentKey, Apart-remove, Apart-Reconciled, authorize-All,
}
use flowweave.Reassembly

-- The limits that `VpnIdentityRegistry::new` checks, as far as a data path needs them.
abbrev pub HasRoomy : VpnIdentity → Type 0
HasRoomy identity = vpn_max_ip_packet_len ≤ identity.limits.max_reassembly_bytes

-- Each client has one active session at most, the count is right, and so are the shared counters.
pub record IsCoordinator (other_bytes other_packets : ℕ) (c : VpnSessionCoordinator) : Type 0 where
  pub once : Apart [] c.active
  pub counted : c.metrics.active_sessions ≡ length c.active
  pub accounts : Accounts c.quota_metrics c.active other_bytes other_packets
  pub roomy : All HasRoomy c.registry.identities

pub data Event : Type 0 where
  allocates closes_all : Event
  commits : VpnNegotiatedSession → (connection now : ℕ) → Event
  releases : (client_id : List ℕ) → (generation : ℕ) → Event
  replaces : VpnIdentityRegistry → ℕ → Event

-- The coordinator after it; `none` is a panic.
abbrev pub step : VpnSessionCoordinator → Event → Option VpnSessionCoordinator
step c allocates = some (allocate_generation c).0
step c closes_all = elim (close_all c) [ none ↦ none | some (c', n, closed) ↦ some c' ]
step c (commits session connection now) = elim (commit c session connection now) [
  | none ↦ none
  | some (c', closed, r) ↦ some c'
]
step c (releases client_id generation) = elim (release_if_current c client_id generation) [
  | none ↦ none
  | some (c', b) ↦ some c'
]
step c (replaces registry now) = elim (replace_registry c registry now) [
  | none ↦ none
  | some (c', report, closed) ↦ some c'
]

abbrev pub run : VpnSessionCoordinator → List Event → Option VpnSessionCoordinator
run c [] = some c
run c (e ∷ es) = elim (step c e) [ none ↦ none | some c' ↦ run c' es ]

-- A negotiated session has a packet length that the negotiation allows, and a registry checked limits.
abbrev pub IsAllowed : Event → Type 0
IsAllowed (commits session connection now) =
    (vpn_min_ip_packet_len ≤ session.accepted.max_ip_packet_len)
    × (session.accepted.max_ip_packet_len ≤ vpn_max_ip_packet_len)
IsAllowed (replaces registry now) = All HasRoomy registry.identities
IsAllowed _ = Unit {0}

validate_commit-HasRoomy :
    (registry : VpnIdentityRegistry) (session : VpnNegotiatedSession) (identity : VpnIdentity)
    → All HasRoomy registry.identities
    → validate_commit registry session ≡ ok identity
    → HasRoomy identity
unfolding validate_commit
validate_commit-HasRoomy registry session identity h e =
    elim (Result-cases (authorize registry session.fingerprint)) [
      | inr (x, refused) ↦ absurd (impossible (rw (validate_commit, refused) at e))
      | inl (i, found) ↦
          subst HasRoomy (same i _ _ (rw (validate_commit, found) at e))
            (authorize-All HasRoomy registry session.fingerprint i h found)
    ]
  where
    impossible :
        ◌≡◌ {A = Result VpnIdentity VpnSessionCommitError} (err identity_revoked) (ok identity) → ⊥
    impossible p = cc

    same :
        (i : VpnIdentity) (x y : Bool)
        → ◌≡◌ {A = Result VpnIdentity VpnSessionCommitError}
            (if x then (if y then ok i else err policy_changed) else err identity_revoked)
            (ok identity)
        → i ≡ identity
    same i true true p = ground arith
    same i true false p = absurd cc
    same i false y p = absurd cc

-- A data path can be made, and it holds nothing yet.
abbrev HoldsNothing : Result VpnDataPathHandle VpnPacketError → Type 0
HoldsNothing (err e) = ⊥
HoldsNothing (ok p) = (p.state.accounted_bytes ≡ 0) × (p.state.accounted_packets ≡ 0)

new_policy_inactive-HoldsNothing :
    (data_policy : VpnDataPolicy) (limits : VpnIdentityLimits) (packet_len generation : ℕ)
    (limiter : VpnIdentityRateLimiter) (b : VpnGlobalReassemblyBudget) (m : VpnDataPolicyMetrics)
    → vpn_max_ip_packet_len ≤ limits.max_reassembly_bytes
    → vpn_min_ip_packet_len ≤ packet_len
    → packet_len ≤ vpn_max_ip_packet_len
    → HoldsNothing (new_policy_inactive data_policy limits packet_len generation limiter b m)
unfolding new_policy_inactive Reassembly.new
new_policy_inactive-HoldsNothing data_policy limits packet_len generation limiter b m h low high =
    rw (new_policy_inactive, Reassembly.new, long, short, roomy) (refl, refl)
  where
    long : leb vpn_min_ip_packet_len packet_len ≡ true
    long = ground (arith, low)

    short : leb packet_len vpn_max_ip_packet_len ≡ true
    short = ground (arith, high)

    roomy : ltb limits.max_reassembly_bytes vpn_max_ip_packet_len ≡ false
    roomy = ground (arith, h)

module _ (other_bytes other_packets : ℕ) where
  abbrev pub EndsIn : Option VpnSessionCoordinator → Type 0
  EndsIn none = ⊥
  EndsIn (some c) = IsCoordinator other_bytes other_packets c

  -- What the replaced session held is given back.
  deactivate_replaced-Accounts :
      (m : VpnQuotaMetrics) (k : List ℕ) (l : ActiveSessions)
      → Accounts m l other_bytes other_packets
      → (m' : VpnQuotaMetrics) × (deactivate_replaced m (find k l) ≡ some m')
        × Accounts m' (remove k l) other_bytes other_packets
  unfolding deactivate_replaced
  deactivate_replaced-Accounts m k l v = elim (Option-cases (find k l)) [
    | inl absent ↦ (
      m,
      ap (deactivate_replaced m) absent,
      subst (λ x. Accounts m x other_bytes other_packets) (sym (remove-absent k l absent)) v,
    )
    | inr (a, found) ↦
        let (x, y) = held-remove k a l found in
        let (m', ends, w) =
          deactivate_path-Accounts other_bytes other_packets m l (remove k l) a v x y in
        (m', ap (deactivate_replaced m) found ∙ ends, w)
  ]

  committed :
      (c : VpnSessionCoordinator) (session : VpnNegotiatedSession) (connection now : ℕ)
      → IsCoordinator other_bytes other_packets c
      → IsAllowed (commits session connection now)
      → EndsIn (step c (commits session connection now))
  unfolding commit install activate held_bytes held_packets find
  committed c session connection now v (low, high) =
      elim (Result-cases (validate_commit c.registry session)) [
        | inr (x, e) ↦
            rw (step, commit, e)
              (record {
                once = v.once;
                counted = v.counted;
                accounts = v.accounts;
                roomy = v.roomy;
              })
        | inl (identity, e) ↦
            let limiter : VpnIdentityRateLimiter = record {
              state = limiter_of c.identity_quotas session now;
              metrics = c.quota_metrics;
            } in
            let nothing =
              new_policy_inactive-HoldsNothing identity.policy identity.limits
                session.accepted.max_ip_packet_len session.accepted.session_generation limiter
                c.global_budget c.data_metrics
                (validate_commit-HasRoomy c.registry session identity v.roomy e) low high in
            elim (Result-cases (
              new_policy_inactive identity.policy identity.limits session.accepted.max_ip_packet_len
                session.accepted.session_generation limiter c.global_budget c.data_metrics)) [
                  | inr (x, e') ↦ absurd (subst HoldsNothing e' nothing)
                  | inl (p, e') ↦
                      let (no_bytes, no_packets) = subst HoldsNothing e' nothing in
                      let (m, e'', w) =
                        deactivate_replaced-Accounts c.quota_metrics session.identity.client_id
                          c.active v.accounts in
                      rw (step, commit, e, e', e'')
                        (record {
                          once = (
                            refl,
                            remove-AbsentKey session.identity.client_id c.active v.once,
                            Apart-remove session.identity.client_id c.active v.once,
                          );
                          counted = refl;
                          accounts = record {
                            bytes = omega (arith, no_bytes, w.bytes);
                            packets = omega (arith, no_packets, w.packets);
                          };
                          roomy = v.roomy;
                        })
                ]
      ]

  released :
      (c : VpnSessionCoordinator) (client_id : List ℕ) (generation : ℕ)
      → IsCoordinator other_bytes other_packets c
      → EndsIn (step c (releases client_id generation))
  unfolding release_if_current is_current
  released c client_id generation v = elim (Option-cases (find client_id c.active)) [
    | inl absent ↦ rw (step, release_if_current, is_current, absent) v
    | inr (a, found) ↦ elim (Bool-cases (a.session.accepted.session_generation == generation)) [
      | inr stale ↦ rw (step, release_if_current, is_current, found, stale) v
      | inl current ↦
          let (x, y) = held-remove client_id a c.active found in
          let (m, ends, w) =
            deactivate_path-Accounts other_bytes other_packets c.quota_metrics c.active
              (remove client_id c.active) a v.accounts x y in
          rw (step, release_if_current, is_current, found, current, ends)
            (record {
              once = Apart-remove client_id c.active v.once;
              counted = refl;
              accounts = w;
              roomy = v.roomy;
            })
    ]
  ]

  step-EndsIn :
      (c : VpnSessionCoordinator) (e : Event)
      → IsCoordinator other_bytes other_packets c
      → IsAllowed e
      → EndsIn (step c e)
  unfolding close_all allocate_generation
  step-EndsIn c allocates v a = elim (Bool-cases (c.next_generation == 0)) [
    | inl over ↦ rw (allocate_generation, over) v
    | inr more ↦
        rw (allocate_generation, more)
          (record { once = v.once; counted = v.counted; accounts = v.accounts; roomy = v.roomy })
  ]
  step-EndsIn c closes_all v a =
      let (m, ends, w) =
        deactivate_all-Accounts other_bytes other_packets c.quota_metrics c.active v.accounts in
      rw (step, close_all, ends)
        (record { once = tt; counted = refl; accounts = w; roomy = v.roomy })
  step-EndsIn c (commits session connection now) v a = committed c session connection now v a
  step-EndsIn c (releases client_id generation) v a = released c client_id generation v
  step-EndsIn c (replaces registry now) v roomy =
      let (c', report, closed, ends, w) =
        replace_registry-Replaced registry other_bytes other_packets c now v.once v.accounts in
      rw (step, ends)
        (record {
          once = Apart-Reconciled w.active v.once;
          counted = w.counted;
          accounts = w.accounts;
          roomy = subst (λ r. All HasRoomy r.identities) (sym w.current) roomy;
        })

  -- From a coordinator of which this holds, after any sequence of commits, releases, reloads, allocations
  -- and shutdowns, where sessions have an allowed packet length and registries the reassembly limits that
  -- are checked: nothing has panicked,
  -- each client has one active session at most, the number of active sessions is counted right, and the
  -- shared counters stand at what the active sessions and others hold.
  pub run-IsCoordinator :
      (c : VpnSessionCoordinator) (es : List Event)
      → IsCoordinator other_bytes other_packets c
      → All IsAllowed es
      → EndsIn (run c es)
  run-IsCoordinator c [] v a = v
  run-IsCoordinator c (e ∷ es) v (x, a) =
      next (step c e) (step-EndsIn c e v x) (λ c' w. run-IsCoordinator c' es w a)
    where
      next :
          (o : Option VpnSessionCoordinator)
          → EndsIn o
          → ((c' : VpnSessionCoordinator)
              → IsCoordinator other_bytes other_packets c'
              → EndsIn (run c' es))
          → EndsIn
              (elim o as (λ _. Option VpnSessionCoordinator) [ none ↦ none | some c' ↦ run c' es ])
      next none w go = w
      next (some c') w go = go c' w

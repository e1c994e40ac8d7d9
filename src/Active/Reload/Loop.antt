-- ===== src/Active/Reload/Loop.antt =====
-- src/vpn_active_session.rs, the loop of `replace_registry` over its decisions.
use flowweave.Prelude.{
  ◌++◌, append_assoc, ℕ, ◌+◌, ◌≡◌, refl, sym, ap, subst, ◌∙◌, ◌≢◌, ◌↔◌, Option, none, some, List,
  [], ◌∷◌, length, list_eq_self,
}
use flowweave.Identity.Registry.{VpnIdentityRegistry}
use flowweave.Quota.{VpnQuotaMetrics}
use flowweave.Active.{
  VpnSessionCoordinator, ReconcileDecision, keep, revoke, change_policy, VpnSessionReconcileReport,
  ActiveVpnSession, ActiveSessions, find, remove,
}
use flowweave.Active.Coordinator.{
  Closes, decide, decisions, take_out, reconcile_sessions, replace_registry, retain_quotas,
}
use flowweave.Active.Accounts.{Accounts, take_out-Accounts}
use flowweave.Active.Reload.{
  Authorized, Reconciled, empty, stays, goes, decide-Authorized, Apart, find-append, remove-append,
  Apart-snoc,
}

module _ (registry : VpnIdentityRegistry) (other_bytes other_packets : ℕ) where
  -- The loop comes to its end without a panic; of the second list the authorised sessions are left.
  abbrev Leaves :
      ActiveSessions
      → ActiveSessions
      → Option (VpnSessionCoordinator × VpnSessionReconcileReport × Closes)
      → Type 0
  Leaves ks l none = ⊥
  Leaves ks l (some (c, report, closed)) =
      (kept : ActiveSessions) × Reconciled registry l kept
      × (c.active ≡ ks ++ kept)
      × (c.registry ≡ registry)
      × Accounts c.quota_metrics (ks ++ kept) other_bytes other_packets

  -- One entry, given the rest of the loop.
  abbrev Step : ActiveSessions → ActiveSessions → Type 0
  Step ks l =
      (c : VpnSessionCoordinator) (report : VpnSessionReconcileReport) (closed : Closes)
      → c.active ≡ ks ++ l
      → c.registry ≡ registry
      → Accounts c.quota_metrics (ks ++ l) other_bytes other_packets
      → Leaves ks l (reconcile_sessions (decisions registry l) c report closed)

  Leaves-stays :
      (k : List ℕ) (a : ActiveVpnSession) (ks l : ActiveSessions)
      (o : Option (VpnSessionCoordinator × VpnSessionReconcileReport × Closes))
      → Authorized registry (k, a)
      → Leaves (ks ++ (k, a) ∷ []) l o
      → Leaves ks ((k, a) ∷ l) o
  Leaves-stays k a ks l none authorized w = w
  Leaves-stays k a ks l (some (c, report, closed)) authorized (kept, rest, e, r, v) = (
    (k, a) ∷ kept,
    stays authorized rest,
    e ∙ append_assoc ks ((k, a) ∷ []) kept,
    r,
    subst (λ x. Accounts c.quota_metrics x other_bytes other_packets)
        (append_assoc ks ((k, a) ∷ []) kept) v,
  )

  Leaves-goes :
      (k : List ℕ) (a : ActiveVpnSession) (ks l : ActiveSessions)
      (o : Option (VpnSessionCoordinator × VpnSessionReconcileReport × Closes))
      → ¬ Authorized registry (k, a)
      → Leaves ks l o
      → Leaves ks ((k, a) ∷ l) o
  Leaves-goes k a ks l none refused w = w
  Leaves-goes k a ks l (some (c, report, closed)) refused (kept, rest, e, r, v) =
      (kept, goes refused rest, e, r, v)

  first :
      (k : List ℕ) (a : ActiveVpnSession) (ks l : ActiveSessions)
      → find k ks ≡ none
      → find k (ks ++ (k, a) ∷ l) ≡ some a
  unfolding find
  first k a ks l e = find-append k ks ((k, a) ∷ l) e ∙ rw (list_eq_self k) refl

  rest_of :
      (k : List ℕ) (a : ActiveVpnSession) (ks l : ActiveSessions)
      → find k ks ≡ none
      → remove k (ks ++ (k, a) ∷ l) ≡ ks ++ l
  unfolding remove
  rest_of k a ks l e =
      remove-append k ks ((k, a) ∷ l) e ∙ ap (λ x. ks ++ x) (rw (list_eq_self k) refl)

  -- The coordinator with the entry taken out.
  gone :
      (k : List ℕ) (a : ActiveVpnSession) (ks l : ActiveSessions) (c : VpnSessionCoordinator)
      → find k ks ≡ none
      → c.active ≡ ks ++ (k, a) ∷ l
      → Accounts c.quota_metrics (ks ++ (k, a) ∷ l) other_bytes other_packets
      → (m : VpnQuotaMetrics) × (take_out c k
          ≡ some (record c { active = ks ++ l; quota_metrics = m }, a.connection))
        × Accounts m (ks ++ l) other_bytes other_packets
  gone k a ks l c absent e v =
      let left = ap (remove k) e ∙ rest_of k a ks l absent in
      let (m, ends, w) =
        take_out-Accounts other_bytes other_packets c k a
          (subst (λ x. Accounts c.quota_metrics x other_bytes other_packets) (sym e) v)
          (ap (find k) e ∙ first k a ks l absent) in
      (
        m,
        ends ∙ ap (λ x. some (record c { active = x; quota_metrics = m }, a.connection)) left,
        subst (λ x. Accounts m x other_bytes other_packets) left w,
      )

  revoke_keep : revoke ≢ keep
  revoke_keep e = cc

  change_policy_keep : change_policy ≢ keep
  change_policy_keep e = cc

  reconciled : (ks l : ActiveSessions) → Apart ks l → Step ks l
  unfolding reconcile_sessions decisions
  reconciled ks [] p c report closed e r v = ([], empty, e, r, v)
  reconciled ks ((k, a) ∷ l) (absent, once, p) c report closed e r v =
      decided (decide registry k a.session) (decide-Authorized registry k a)
        (reconciled (ks ++ (k, a) ∷ []) l (Apart-snoc ks l k a once p)) (reconciled ks l p)
    where
      decided :
          (d : ReconcileDecision)
          → (d ≡ keep) ↔ Authorized registry (k, a)
          → Step (ks ++ (k, a) ∷ []) l
          → Step ks l
          → Leaves ks
              ((k, a) ∷ l)
              (reconcile_sessions ((k, d) ∷ decisions registry l) c report closed)
      decided keep authorized with_it without = Leaves-stays k a ks l _ (authorized.0 refl) (
          with_it c (record report { kept = report.kept + 1 }) closed
            (e ∙ sym (append_assoc ks ((k, a) ∷ []) l)) r
            (subst (λ x. Accounts c.quota_metrics x other_bytes other_packets)
              (sym (append_assoc ks ((k, a) ∷ []) l)) v))
      decided revoke authorized with_it without =
          let (m, taken, w) = gone k a ks l c absent e v in
          Leaves-goes k a ks l _ (λ x. revoke_keep (authorized.1 x))
            (rw (reconcile_sessions, taken) (without _ _ _ refl r w))
      decided change_policy authorized with_it without =
          let (m, taken, w) = gone k a ks l c absent e v in
          Leaves-goes k a ks l _ (λ x. change_policy_keep (authorized.1 x))
            (rw (reconcile_sessions, taken) (without _ _ _ refl r w))

  -- What `replace_registry` leaves.
  pub record Replaced (c c' : VpnSessionCoordinator) : Type 0 where
    pub current : c'.registry ≡ registry
    pub active : Reconciled registry c.active c'.active
    pub counted : c'.metrics.active_sessions ≡ length c'.active
    pub accounts : Accounts c'.quota_metrics c'.active other_bytes other_packets

  -- With one session for each client and the shared counters right, the registry is replaced without a
  -- panic. The sessions that stay are in their order exactly those whose certificate the new registry
  -- authorises for the same client with the same state, policy and limits. They are counted right, and
  -- the shared counters stand at what they and others hold: what the closed ones held is given back.
  pub replace_registry-Replaced :
      (c : VpnSessionCoordinator) (now : ℕ)
      → Apart [] c.active
      → Accounts c.quota_metrics c.active other_bytes other_packets
      → (c' : VpnSessionCoordinator) × (report : VpnSessionReconcileReport) × (closed : Closes)
        × (replace_registry c registry now ≡ some (c', report, closed))
        × Replaced c c'
  unfolding replace_registry
  replace_registry-Replaced c now p v = ended _ refl (
      reconciled [] c.active p (record c { registry = registry })
        (record { kept = 0; identities_revoked = 0; policies_changed = 0 }) [] refl refl v)
    where
      ended :
          (o : Option (VpnSessionCoordinator × VpnSessionReconcileReport × Closes))
          → reconcile_sessions
              (decisions registry c.active)
              (record c { registry = registry })
              (record { kept = 0; identities_revoked = 0; policies_changed = 0 })
              []
            ≡ o
          → Leaves [] c.active o
          → (c' : VpnSessionCoordinator) × (report : VpnSessionReconcileReport) × (closed : Closes)
            × (replace_registry c registry now ≡ some (c', report, closed))
            × Replaced c c'
      ended none e x = absurd x
      ended (some (c', report, closed)) e (kept, only, l, r, w) = (
        record c' {
          metrics = record c'.metrics { active_sessions = length c'.active };
          identity_quotas = retain_quotas registry now c'.identity_quotas;
        },
        report,
        closed,
        rw (replace_registry, e) refl,
        record {
          current = r;
          active = subst (Reconciled registry c.active) (sym l) only;
          counted = refl;
          accounts = subst (λ x. Accounts c'.quota_metrics x other_bytes other_packets) (sym l) w;
        },
      )

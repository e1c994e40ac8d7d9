-- ===== src/Active/Coordinator.antt =====
-- src/vpn_active_session.rs, the methods of `VpnSessionCoordinator`. `none` is a panic.
use flowweave.Prelude.{
  ◌++◌, map, ℕ, ◌+◌, ◌%◌, ◌^◌, min, u64_max, saturating_add, increment, ◌==◌, if◌then◌else◌, Bool,
  true, false, not, Option, none, some, List, [], ◌∷◌, length, list_eq, Result, ok, err,
}
use flowweave.Identity.Registry.{VpnIdentityRegistry, authorize, identity_by_client_id}
use flowweave.Session.{VpnNegotiatedSession}
use flowweave.Quota.{VpnQuotaMetrics, reconfigure}
use flowweave.DataPath.{VpnDataPathHandle, new_policy_inactive, set_metrics}
use flowweave.DataPath.Ingest.{deactivate}
use flowweave.Active.{
  VpnSessionCoordinator, VpnManagedSessionError, generation_exhausted, ReconcileDecision, keep,
  revoke, change_policy, VpnSessionReconcileReport, ActiveVpnSession, ActiveSessions,
  IdentityQuotas, find, remove, has_same_session_policy, vpn_close_identity_revoked,
  vpn_close_policy_changed, vpn_close_server_shutdown,
}
use flowweave.DataPath

-- The connections that a method closes, with the codes.
abbrev pub Closes : Type 0
Closes = List (ℕ × ℕ)

-- `fetch_update` with `wrapping_add`; `VpnSessionGeneration::new` refuses 0, which is refused before.
unfoldable pub allocate_generation :
    VpnSessionCoordinator → VpnSessionCoordinator × Result ℕ VpnManagedSessionError
allocate_generation c =
    if c.next_generation == 0
    then (c, err generation_exhausted)
    else (record c { next_generation = (c.next_generation + 1) % 2 ^ 64 }, ok c.next_generation)

abbrev pub generation_of : ActiveVpnSession → ℕ
generation_of a = a.session.accepted.session_generation

unfoldable pub is_current : VpnSessionCoordinator → (client_id : List ℕ) → (generation : ℕ) → Bool
is_current c client_id generation = elim (find client_id c.active) [
  | none ↦ false
  | some a ↦ generation_of a == generation
]

-- `data_path.deactivate()`, with the shared counters.
unfoldable pub deactivate_path : VpnQuotaMetrics → VpnDataPathHandle → Option VpnQuotaMetrics
deactivate_path m p = elim (deactivate (set_metrics p m)) [
  | none ↦ none
  | some h ↦ some (DataPath.quota_metrics h)
]

unfoldable pub release_if_current :
    VpnSessionCoordinator
    → (client_id : List ℕ) → (generation : ℕ) → Option (VpnSessionCoordinator × Bool)
release_if_current c client_id generation =
    if not (is_current c client_id generation)
    then some (c, false)
    else elim (find client_id c.active) [
      | none ↦ none
      | some a ↦ elim (deactivate_path c.quota_metrics a.data_path) [
        | none ↦ none
        | some m ↦
            let active = remove client_id c.active in
            let s = c.metrics in
            some (
              record c {
                active = active;
                quota_metrics = m;
                metrics = record s {
                  normal_releases = increment s.normal_releases;
                  active_sessions = length active;
                };
              },
              true,
            )
      ]
    ]

-- The `match` on what `authorize` returns; its panic, which no registry of `registry_new` meets, is
-- taken with the errors.
unfoldable pub decide : VpnIdentityRegistry → List ℕ → VpnNegotiatedSession → ReconcileDecision
decide registry client_id session = elim (authorize registry session.fingerprint) [
  | err e ↦ revoke
  | ok identity ↦
      if list_eq identity.client_id client_id
      then if has_same_session_policy session.identity identity then keep else change_policy
      else revoke
]

unfoldable pub decisions : VpnIdentityRegistry → ActiveSessions → List (List ℕ × ReconcileDecision)
decisions registry [] = []
decisions registry ((client_id, a) ∷ rest) =
    (client_id, decide registry client_id a.session) ∷ decisions registry rest

-- `active.remove(&client_id).expect(..)` and `data_path.deactivate()`.
unfoldable pub take_out : VpnSessionCoordinator → List ℕ → Option (VpnSessionCoordinator × ℕ)
take_out c client_id = elim (find client_id c.active) [
  | none ↦ none
  | some a ↦ elim (deactivate_path c.quota_metrics a.data_path) [
    | none ↦ none
    | some m ↦
        some (record c { active = remove client_id c.active; quota_metrics = m }, a.connection)
  ]
]

-- The loop over the decisions.
unfoldable pub reconcile_sessions :
    List (List ℕ × ReconcileDecision)
    → VpnSessionCoordinator
    → VpnSessionReconcileReport
    → Closes
    → Option (VpnSessionCoordinator × VpnSessionReconcileReport × Closes)
reconcile_sessions [] c report closed = some (c, report, closed)
reconcile_sessions ((client_id, keep) ∷ rest) c report closed =
    reconcile_sessions rest c (record report { kept = report.kept + 1 }) closed
reconcile_sessions ((client_id, revoke) ∷ rest) c report closed = elim (take_out c client_id) [
  | none ↦ none
  | some (c', connection) ↦
      let s = c'.metrics in
      reconcile_sessions rest
        (record c' {
          metrics = record s { identity_revocations = increment s.identity_revocations };
        })
        (record report { identities_revoked = report.identities_revoked + 1 })
        (closed ++ (connection, vpn_close_identity_revoked) ∷ [])
]
reconcile_sessions ((client_id, change_policy) ∷ rest) c report closed =
    elim (take_out c client_id) [
      | none ↦ none
      | some (c', connection) ↦
          let s = c'.metrics in
          reconcile_sessions rest
            (record c' {
              metrics = record s { policy_change_closes = increment s.policy_change_closes };
            })
            (record report { policies_changed = report.policies_changed + 1 })
            (closed ++ (connection, vpn_close_policy_changed) ∷ [])
    ]

-- `identity_quotas.retain`.
unfoldable pub retain_quotas : VpnIdentityRegistry → ℕ → IdentityQuotas → IdentityQuotas
retain_quotas registry now [] = []
retain_quotas registry now ((client_id, limiter) ∷ rest) =
    elim (identity_by_client_id registry client_id) [
      | none ↦ retain_quotas registry now rest
      | some identity ↦
          if identity.enabled
          then (client_id, reconfigure limiter identity.limits now)
            ∷ retain_quotas registry now rest
          else retain_quotas registry now rest
    ]

-- `replace_registry`, without the counts of the two registries in its report.
unfoldable pub replace_registry :
    VpnSessionCoordinator
    → VpnIdentityRegistry
    → ℕ
    → Option (VpnSessionCoordinator × VpnSessionReconcileReport × Closes)
replace_registry c registry now =
    elim (reconcile_sessions (decisions registry c.active) (record c { registry = registry })
      (record { kept = 0; identities_revoked = 0; policies_changed = 0 }) []) [
        | none ↦ none
        | some (c', report, closed) ↦
            let s = c'.metrics in
            some (
              record c' {
                metrics = record s { active_sessions = length c'.active };
                identity_quotas = retain_quotas registry now c'.identity_quotas;
              },
              report,
              closed,
            )
      ]

-- The deactivations of `close_all`, and its closes.
unfoldable pub deactivate_all : VpnQuotaMetrics → ActiveSessions → Option VpnQuotaMetrics
deactivate_all m [] = some m
deactivate_all m ((client_id, a) ∷ rest) = elim (deactivate_path m a.data_path) [
  | none ↦ none
  | some m' ↦ deactivate_all m' rest
]

unfoldable pub close_all : VpnSessionCoordinator → Option (VpnSessionCoordinator × ℕ × Closes)
close_all c = elim (deactivate_all c.quota_metrics c.active) [
  | none ↦ none
  | some m ↦
      let s = c.metrics in
      some (
        record c {
          active = [];
          quota_metrics = m;
          identity_quotas = [];
          metrics = record s {
            shutdown_closes =
                saturating_add u64_max s.shutdown_closes (min (length c.active) u64_max);
            active_sessions = 0;
          };
        },
        length c.active,
        map (λ (k, a). (a.connection, vpn_close_server_shutdown)) c.active,
      )
]

-- ===== src/Active/Commit.antt =====
-- src/vpn_active_session.rs, `commit_with_handle_at`. `none` is a panic.
use flowweave.Prelude.{
  ℕ, increment, if◌then◌else◌, Option, none, some, [], ◌∷◌, length, list_eq, Result, ok, err,
  is_some,
}
use flowweave.Identity.Registry.{VpnIdentity, VpnIdentityRegistry, authorize}
use flowweave.Session.{VpnNegotiatedSession}
use flowweave.Quota.{VpnQuotaMetrics, IdentityRateState, rate_state, reconfigure}
use flowweave.DataPath.{VpnDataPathHandle, new_policy_inactive}
use flowweave.DataPath.Ingest.{activate}
use flowweave.Active.{
  VpnSessionCoordinator, VpnSessionCommitError, identity_revoked, policy_changed, ActiveVpnSession,
  IdentityQuotas, find, remove, has_same_session_policy, vpn_close_session_replaced,
  vpn_close_commit_rejected,
}
use flowweave.Active.Coordinator.{Closes, generation_of, deactivate_path}

pub record VpnSessionCommitReport : Type 0 where
  pub session_generation : ℕ
  pub replaced_generation : Option ℕ

pub record VpnCommittedSession : Type 0 where
  pub report : VpnSessionCommitReport
  pub data_path : VpnDataPathHandle

-- The `match` on what `authorize` returns; its panic, which no registry of `registry_new` meets, is
-- taken with the errors.
unfoldable pub validate_commit :
    VpnIdentityRegistry → VpnNegotiatedSession → Result VpnIdentity VpnSessionCommitError
validate_commit registry session = elim (authorize registry session.fingerprint) [
  | err e ↦ err identity_revoked
  | ok identity ↦
      if list_eq identity.client_id session.identity.client_id
      then if has_same_session_policy session.identity identity
        then ok identity
        else err policy_changed
      else err identity_revoked
]

-- `entry(..).or_insert_with(..)` and the later `reconfigure` of the same limiter.
unfoldable pub limiter_of : IdentityQuotas → VpnNegotiatedSession → ℕ → IdentityRateState
limiter_of quotas session now =
    let limits = session.identity.limits in
    elim (find session.identity.client_id quotas) [
      | none ↦ reconfigure (rate_state limits now) limits now
      | some limiter ↦ reconfigure limiter limits now
    ]

-- The end of the locked part: the new session is in `active`, and the replaced one out of it.
unfoldable pub install :
    VpnSessionCoordinator
    → VpnNegotiatedSession
    → (connection : ℕ) → VpnDataPathHandle
    → VpnSessionCoordinator
install c session connection data_path =
    let client_id = session.identity.client_id in
    let active =
      (client_id, record { session = session; connection = connection; data_path = data_path })
      ∷ remove client_id c.active in
    let s = c.metrics in
    record c {
      active = active;
      metrics = record s {
        total_committed = increment s.total_committed;
        replacements =
            if is_some (find client_id c.active) then increment s.replacements else s.replacements;
        active_sessions = length active;
      };
    }

-- `replaced.data_path.deactivate()`, where there is one.
unfoldable pub deactivate_replaced :
    VpnQuotaMetrics → Option ActiveVpnSession → Option VpnQuotaMetrics
deactivate_replaced m none = some m
deactivate_replaced m (some a) = deactivate_path m a.data_path

abbrev pub replaced_close : Option ActiveVpnSession → Closes
replaced_close none = []
replaced_close (some a) = (a.connection, vpn_close_session_replaced) ∷ []

abbrev pub replaced_generation_of : Option ActiveVpnSession → Option ℕ
replaced_generation_of none = none
replaced_generation_of (some a) = some (generation_of a)

unfoldable pub commit :
    VpnSessionCoordinator
    → VpnNegotiatedSession
    → (connection now : ℕ)
    → Option (VpnSessionCoordinator × Closes × Result VpnCommittedSession VpnSessionCommitError)
commit c session connection now = elim (validate_commit c.registry session) [
  | err e ↦
      let s = c.metrics in
      some (
        record c { metrics = record s { commit_rejections = increment s.commit_rejections } },
        (connection, vpn_close_commit_rejected) ∷ [],
        err e,
      )
  | ok identity ↦
      let client_id = session.identity.client_id in
      let limiter = limiter_of c.identity_quotas session now in
      elim (new_policy_inactive identity.policy identity.limits session.accepted.max_ip_packet_len
        session.accepted.session_generation (record { state = limiter; metrics = c.quota_metrics })
        c.global_budget c.data_metrics) [
          | err e ↦ none
          | ok data_path ↦
              let replaced = find client_id c.active in
              elim (deactivate_replaced c.quota_metrics replaced) [
                | none ↦ none
                | some m ↦ some (
                  record (install c session connection (activate data_path)) {
                    quota_metrics = m;
                    identity_quotas = (client_id, limiter) ∷ remove client_id c.identity_quotas;
                  },
                  replaced_close replaced,
                  ok (record {
                    report = record {
                      session_generation = session.accepted.session_generation;
                      replaced_generation = replaced_generation_of replaced;
                    };
                    data_path = activate data_path;
                  }),
                )
              ]
        ]
]

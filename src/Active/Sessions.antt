-- ===== src/Active/Sessions.antt =====
-- src/vpn_active_session.rs: a commit replaces the client's session, and a release of an older
-- generation does not touch the new one.
use flowweave.Prelude.{
  ℕ, ◌≡◌, refl, ap, subst, ◌≢◌, inl, inr, arith, ◌==◌, ==_iff, Option-cases, Result-cases, Bool,
  true, false, Option, none, some, list_eq_self, Result, ok, err,
}
use flowweave.Session.{VpnNegotiatedSession}
use flowweave.DataPath.{VpnDataPathHandle, new_policy_inactive}
use flowweave.DataPath.Ingest.{activate}
use flowweave.Active.{VpnSessionCoordinator, VpnSessionCommitError, find}
use flowweave.Active.Coordinator.{Closes, is_current, release_if_current}
use flowweave.Active.Commit.{
  VpnCommittedSession, validate_commit, limiter_of, install, deactivate_replaced, commit,
}

abbrev Outcome : Type 0
Outcome = Option (VpnSessionCoordinator × Closes × Result VpnCommittedSession VpnSessionCommitError)

-- The coordinator after the commit, if it succeeds.
abbrev committed_state : VpnSessionCoordinator → Outcome → VpnSessionCoordinator
committed_state c none = c
committed_state c (some (c', closes, r)) = c'

abbrev succeeds : Outcome → Bool
succeeds none = false
succeeds (some (c, closes, err e)) = false
succeeds (some (c, closes, ok s)) = true

module _ (c : VpnSessionCoordinator) (session : VpnNegotiatedSession) (connection now : ℕ) where
  -- The client's session is the committed one.
  abbrev IsInstalled : VpnSessionCoordinator → Type 0
  IsInstalled c' =
      (p : VpnDataPathHandle) × (find session.identity.client_id c'.active
        ≡ some (record { session = session; connection = connection; data_path = p }))

  commit-IsInstalled :
      succeeds (commit c session connection now) ≡ true
      → IsInstalled (committed_state c (commit c session connection now))
  unfolding commit install find
  commit-IsInstalled h = elim (Result-cases (validate_commit c.registry session)) [
    | inr (x, e) ↦ absurd (impossible (rw (commit, e) at h))
    | inl (identity, e) ↦
        elim (Result-cases (
          new_policy_inactive identity.policy identity.limits session.accepted.max_ip_packet_len
            session.accepted.session_generation
            (record { state = limiter_of c.identity_quotas session now; metrics = c.quota_metrics })
            c.global_budget c.data_metrics)) [
              | inr (x, e') ↦ absurd (impossible (rw (commit, e, e') at h))
              | inl (p, e') ↦
                  elim (Option-cases (
                    deactivate_replaced c.quota_metrics
                      (find session.identity.client_id c.active))) [
                        | inl e'' ↦ absurd (impossible (rw (commit, e, e', e'') at h))
                        | inr (m, e'') ↦
                            rw (commit, e, e', e'')
                              (activate p, rw (list_eq_self session.identity.client_id) refl)
                      ]
            ]
  ]
    where
      impossible : false ≡ true → ⊥
      impossible x = cc

  -- After a commit that succeeds the session is the current one of its client, and a release of any
  -- other generation, such as that of the session it replaced, changes nothing.
  pub release_if_current-commit :
      (c' : VpnSessionCoordinator) (closes : Closes) (s : VpnCommittedSession) (stale : ℕ)
      → commit c session connection now ≡ some (c', closes, ok s)
      → stale ≢ session.accepted.session_generation
      → (is_current c' session.identity.client_id session.accepted.session_generation ≡ true)
        × (is_current c' session.identity.client_id stale ≡ false)
        × (release_if_current c' session.identity.client_id stale ≡ some (c', false))
  unfolding is_current release_if_current
  release_if_current-commit c' closes s stale h ne =
      let (p, found) : IsInstalled c' =
        subst (λ o. IsInstalled (committed_state c o)) h (commit-IsInstalled (ap succeeds h)) in
      let same =
        (==_iff session.accepted.session_generation session.accepted.session_generation).1 refl in
      (
        rw (is_current, found) same,
        rw (is_current, found) other,
        rw (release_if_current, is_current, found, other) refl,
      )
    where
      other : (session.accepted.session_generation == stale) ≡ false
      other = ground arith

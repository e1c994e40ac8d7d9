-- ===== src/Active/Keys.antt =====
-- src/vpn_active_session.rs: every client has at most one active session.
use flowweave.Identity.Registry.{
  identity_disabled, VpnIdentity, VpnIdentityRegistry, authorize, nth, find_key,
  VpnIdentityAuthorizationError,
}
use flowweave.Prelude.{
  ℕ, zero, suc, ◌≡◌, refl, sym, subst, inl, inr, arith, Bool-cases, Option-cases, false, not, none,
  some, List, [], ◌∷◌, All, list_eq, list_eq→eq, list_eq_self, Result, ok, err, ◌>>◌, fail_if,
}
use flowweave.Active.{ActiveSessions, find, remove}
use flowweave.Active.Reload.{Reconciled, empty, stays, goes, AbsentKey, Apart}

-- A key that is not found is nowhere, and taking it out does nothing.
pub remove-absent : (k : List ℕ) (l : ActiveSessions) → find k l ≡ none → remove k l ≡ l
unfolding find remove
remove-absent k [] e = refl
remove-absent k ((j, a) ∷ l) e = ground (arith, remove-absent k l)

AbsentKey-remove : (j k : List ℕ) (l : ActiveSessions) → AbsentKey j l → AbsentKey j (remove k l)
unfolding remove
AbsentKey-remove j k [] n = tt
AbsentKey-remove j k ((i, a) ∷ l) (differs, n) = elim (Bool-cases (list_eq k i)) [
  | inl hit ↦ rw hit n
  | inr miss ↦ rw miss (differs, AbsentKey-remove j k l n)
]

list_eq-swap : (x y : List ℕ) → list_eq x y ≡ false → list_eq y x ≡ false
list_eq-swap x y e = elim (Bool-cases (list_eq y x)) [
  | inl same ↦ absurd (clash (subst (λ z. list_eq z y ≡ false) (sym (list_eq→eq y x same)) e))
  | inr differs ↦ differs
]
  where
    clash : list_eq y y ≡ false → ⊥
    clash f = ground (arith, list_eq_self y)

pub remove-AbsentKey : (k : List ℕ) (l : ActiveSessions) → Apart [] l → AbsentKey k (remove k l)
unfolding remove
remove-AbsentKey k [] p = tt
remove-AbsentKey k ((j, a) ∷ l) (x, once, p) = elim (Bool-cases (list_eq k j)) [
  | inl hit ↦ rw hit (subst (λ i. AbsentKey i l) (sym (list_eq→eq k j hit)) once)
  | inr miss ↦ rw miss (list_eq-swap k j miss, remove-AbsentKey k l p)
]

pub Apart-remove : (k : List ℕ) (l : ActiveSessions) → Apart [] l → Apart [] (remove k l)
unfolding remove
Apart-remove k [] p = tt
Apart-remove k ((j, a) ∷ l) (x, once, p) = elim (Bool-cases (list_eq k j)) [
  | inl hit ↦ rw hit p
  | inr miss ↦ rw miss (x, AbsentKey-remove j k l once, Apart-remove k l p)
]

AbsentKey-Reconciled :
    {registry : VpnIdentityRegistry} (j : List ℕ) {l kept : ActiveSessions}
    → Reconciled registry l kept
    → AbsentKey j l
    → AbsentKey j kept
AbsentKey-Reconciled j empty n = n
AbsentKey-Reconciled j (stays h r) (differs, n) = (differs, AbsentKey-Reconciled j r n)
AbsentKey-Reconciled j (goes h r) (differs, n) = AbsentKey-Reconciled j r n

pub Apart-Reconciled :
    {registry : VpnIdentityRegistry} {l kept : ActiveSessions}
    → Reconciled registry l kept
    → Apart [] l
    → Apart [] kept
Apart-Reconciled empty p = p
Apart-Reconciled (stays {x = (k, a)} h r) (e, once, p) =
    (e, AbsentKey-Reconciled k r once, Apart-Reconciled r p)
Apart-Reconciled (goes h r) (e, once, p) = Apart-Reconciled r p

-- What holds of all identities of a registry holds of the one that it authorises.
nth-All :
    (P : VpnIdentity → Type 0) (i : ℕ) (l : List VpnIdentity) (x : VpnIdentity)
    → All P l
    → nth i l ≡ some x
    → P x
unfolding nth
nth-All P i [] x h e = cc
nth-All P zero (y ∷ l) x (p, h) e = subst P (ground arith) p
nth-All P (suc i) (y ∷ l) x (p, h) e = nth-All P i l x h e

pub authorize-All :
    (P : VpnIdentity → Type 0) (registry : VpnIdentityRegistry) (fingerprint : List ℕ)
    (x : VpnIdentity)
    → All P registry.identities
    → authorize registry fingerprint ≡ ok x
    → P x
unfolding authorize
authorize-All P registry fingerprint x h e =
    elim (Option-cases (find_key fingerprint registry.by_fingerprint)) [
      | inl absent ↦ absurd (refused (rw (authorize, absent) at e))
      | inr (i, found) ↦ elim (Option-cases (nth i registry.identities)) [
        | inl absent ↦ absurd (refused (rw (authorize, found, absent) at e))
        | inr (y, there) ↦
            subst P (granted y (rw (authorize, found, there) at e))
              (nth-All P i registry.identities y h there)
      ]
    ]
  where
    refused :
        {z : VpnIdentityAuthorizationError}
        → ◌≡◌ {A = Result VpnIdentity VpnIdentityAuthorizationError} (err z) (ok x)
        → ⊥
    refused p = cc

    granted :
        (y : VpnIdentity) → (do fail_if (not y.enabled) identity_disabled; ok y) ≡ ok x → y ≡ x
    granted y p = ground arith

-- ===== src/Active/Reload.antt =====
-- src/vpn_active_session.rs, `replace_registry`: which sessions stay.
pub mod Loop
use flowweave.Prelude.{
  ◌++◌, ℕ, zero, suc, ◌+◌, ◌-◌, ◌*◌, ◌/◌, ◌%◌, ◌^◌, ◌≤◌, ◌<◌, replicate, IsByte, min, max, bit_and,
  bit_or, u16_max, u32_max, u64_max, u128_max, usize_max, saturating_add, saturating_mul,
  checked_add, checked_sub, increment, ◌≡◌, refl, sym, ap, subst, ◌∙◌, ◌≢◌, ◌↔◌, ◌⊎◌, inl, inr,
  arith, row_of, descending, bit_and_mask, ltb, leb, ◌==◌, ==_iff, leb→le, Bool-cases, Option-cases,
  Result-cases, check-eq_ok, bind-returns, if◌then◌else◌, Bool, true, false, not, ◌&&◌, ◌||◌,
  Option, none, some, List, [], ◌∷◌, length, is_empty, any, all, All, list_eq, list_eq→eq,
  list_eq_self, Result, ok, err, ◌>>=◌, ◌>>◌, fail_if, ok_or, map_err, is_err, is_some, is_none,
  then_some, checked_add-some,
}
use flowweave.Identity.Registry.{VpnIdentity, VpnIdentityRegistry, authorize}
use flowweave.Active.{
  ReconcileDecision, keep, revoke, change_policy, ActiveVpnSession, ActiveSessions, find, remove,
}
use flowweave.Active.Coordinator.{decide}
use flowweave.Active.Policy.{SamePolicy, has_same_session_policy_iff}

-- The registry authorises the session's certificate for the same client, with the same state, policy
-- and limits.
abbrev pub Authorized : VpnIdentityRegistry → List ℕ × ActiveVpnSession → Type 0
Authorized registry (k, a) =
    (identity : VpnIdentity) × (authorize registry a.session.fingerprint ≡ ok identity)
    × (identity.client_id ≡ k)
    × SamePolicy a.session.identity identity

-- The second list has the authorised sessions of the first one, in their order, and no others.
pub data Reconciled (registry : VpnIdentityRegistry)
    : ActiveSessions → ActiveSessions → Type 0 where
  empty : Reconciled registry [] []
  stays :
      {x : List ℕ × ActiveVpnSession} {l kept : ActiveSessions}
      → Authorized registry x
      → Reconciled registry l kept
      → Reconciled registry (x ∷ l) (x ∷ kept)
  goes :
      {x : List ℕ × ActiveVpnSession} {l kept : ActiveSessions}
      → ¬ Authorized registry x
      → Reconciled registry l kept
      → Reconciled registry (x ∷ l) kept

-- The decision is to keep exactly the authorised sessions.
pub decide-Authorized :
    (registry : VpnIdentityRegistry) (k : List ℕ) (a : ActiveVpnSession)
    → (decide registry k a.session ≡ keep) ↔ Authorized registry (k, a)
unfolding decide
decide-Authorized registry k a = (
  λ e. elim (Result-cases (authorize registry a.session.fingerprint)) [
    | inr (x, refused) ↦ absurd (wrong (rw (decide, refused) at e))
    | inl (identity, found) ↦
        let same = rw (decide, found) at e in
        (
          identity,
          found,
          list_eq→eq _ _ (matches _ _ same),
          (has_same_session_policy_iff _ _).0 (same_policy _ _ same),
        )
  ],
  λ (identity, found, client, same).
      rw
        (
          decide,
          found,
          ap (λ x. list_eq x k) client ∙ list_eq_self k,
          (has_same_session_policy_iff a.session.identity identity).1 same,
        )
        refl,
)
  where
    wrong : revoke ≡ keep → ⊥
    wrong p = cc

    matches :
        (x y : Bool) → (if x then (if y then keep else change_policy) else revoke) ≡ keep → x ≡ true
    matches true y p = refl
    matches false y p = cc

    same_policy :
        (x y : Bool) → (if x then (if y then keep else change_policy) else revoke) ≡ keep → y ≡ true
    same_policy x true p = refl
    same_policy true false p = cc
    same_policy false false p = cc

-- Every client has one session: its key stands nowhere else.
abbrev pub AbsentKey : List ℕ → ActiveSessions → Type 0
AbsentKey k [] = Unit {0}
AbsentKey k ((j, a) ∷ l) = (list_eq j k ≡ false) × AbsentKey k l

-- The clients of the second list are not among those of the first one, and all different.
abbrev pub Apart : ActiveSessions → ActiveSessions → Type 0
Apart ks [] = Unit {0}
Apart ks ((k, a) ∷ l) = (find k ks ≡ none) × AbsentKey k l × Apart ks l

pub find-append :
    (j : List ℕ) (ks l : ActiveSessions) → find j ks ≡ none → find j (ks ++ l) ≡ find j l
unfolding find
find-append j [] l e = refl
find-append j ((k, a) ∷ ks) l e = ground (arith, find-append j ks l)

pub remove-append :
    (j : List ℕ) (ks l : ActiveSessions) → find j ks ≡ none → remove j (ks ++ l) ≡ ks ++ remove j l
unfolding find remove
remove-append j [] l e = refl
remove-append j ((k, a) ∷ ks) l e = ground (arith, remove-append j ks l)

pub Apart-snoc :
    (ks l : ActiveSessions) (k : List ℕ) (a : ActiveVpnSession)
    → AbsentKey k l
    → Apart ks l
    → Apart (ks ++ (k, a) ∷ []) l
unfolding find
Apart-snoc ks [] k a n p = tt
Apart-snoc ks ((j, b) ∷ l) k a (differs, n) (gone, once, p) =
    (find-append j ks ((k, a) ∷ []) gone ∙ rw differs refl, once, Apart-snoc ks l k a n p)

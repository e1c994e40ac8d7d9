-- ===== src/Identity/Registry/Search.antt =====
-- src/vpn_identity.rs, `VpnIdentityRegistry::authorize`: the hash tables of the registry against a
-- search through the identities of the list.
use flowweave.Prelude.{
  ℕ, suc, ◌+◌, ◌≡◌, refl, sym, ap, subst, ◌∙◌, ◌⊎◌, inl, inr, arith, Bool-cases, Option-cases,
  Result-cases, bind-returns, if◌then◌else◌, Bool, true, false, not, ◌||◌, Option, none, some, List,
  [], ◌∷◌, any, list_eq, list_eq→eq, Result, ok, ◌>>=◌, ◌>>◌, fail_if, ok_or,
}
use flowweave.Identity.Errors.{VpnIdentityError, duplicate_fingerprint}
use flowweave.Identity.Registry.{
  VpnIdentity, Index, find_key, register, register_fingerprints, RegistryTables, enroll, enroll_all,
  nth, VpnIdentityRegistry, registry_new, no_tables, VpnIdentityAuthorizationError,
  unknown_fingerprint, identity_disabled, authorize,
}

-- The first identity of the list that holds the fingerprint, and its position counted from `index`.
abbrev pub holds : List ℕ → VpnIdentity → Bool
holds fingerprint identity = any (list_eq fingerprint) (identity.fingerprints)

abbrev holder : List ℕ → List VpnIdentity → Option VpnIdentity
holder fingerprint [] = none
holder fingerprint (i ∷ is) = if holds fingerprint i then some i else holder fingerprint is

abbrev position : List ℕ → ℕ → List VpnIdentity → Option ℕ
position fingerprint index [] = none
position fingerprint index (i ∷ is) =
    if holds fingerprint i then some index else position fingerprint (index + 1) is

abbrev or_else : Option ℕ → Option ℕ → Option ℕ
or_else none b = b
or_else (some a) b = some a

or_else_assoc : (a b c : Option ℕ) → or_else (or_else a b) c ≡ or_else a (or_else b c)
or_else_assoc none b c = refl
or_else_assoc (some a) b c = refl

or_else-none : (a : Option ℕ) → or_else a none ≡ a
or_else-none none = refl
or_else-none (some a) = refl

either_self : (v : Option ℕ) → or_else v v ≡ v
either_self none = refl
either_self (some a) = refl

either :
    (a b : Bool) (v : Option ℕ)
    → or_else (if a then v else none) (if b then v else none) ≡ (if a || b then v else none)
either true true v = either_self v
either true false v = or_else-none v
either false b v = refl

default :
    (a : Bool) (i : ℕ) (v : Option ℕ)
    → or_else (if a then some i else none) v ≡ (if a then some i else v)
default true i v = refl
default false i v = refl

-- What authorisation means: no table and no index.
abbrev pub authorize_by_search :
    List VpnIdentity → List ℕ → Result VpnIdentity VpnIdentityAuthorizationError
authorize_by_search identities fingerprint = do
  identity ← ok_or (holder fingerprint identities) unknown_fingerprint
  fail_if (not (identity.enabled)) identity_disabled
  ok identity

-- An insertion that is no error was of a new key.
register-new :
    (key : List ℕ) (index : ℕ) (e : VpnIdentityError) (m m' : Index)
    → register key index e m ≡ ok m'
    → (find_key key m ≡ none) × (m' ≡ (key, index) ∷ m)
unfolding register
register-new key index e m m' h = elim (Option-cases (find_key key m)) [
  | inl new ↦ (new, cc (h, new))
  | inr (i, old) ↦ absurd cc
]

find_key-register :
    (k key : List ℕ) (index : ℕ) (e : VpnIdentityError) (m m' : Index)
    → register key index e m ≡ ok m'
    → find_key k m' ≡ or_else (find_key k m) (if list_eq k key then some index else none)
unfolding find_key
find_key-register k key index e m m' h =
    let (new, after) = register-new key index e m m' h in
    rw after (elim (Bool-cases (list_eq k key)) [
      | inl same ↦
          rw (same, subst (λ x. find_key x m ≡ none) (sym (list_eq→eq k key same)) new) refl
      | inr other ↦ rw (other, or_else-none (find_key k m)) refl
    ])

find_key-register_fingerprints :
    (k : List ℕ) (fs : List (List ℕ)) (index : ℕ) (m m' : Index)
    → register_fingerprints fs index m ≡ ok m'
    → find_key k m' ≡ or_else (find_key k m) (if any (list_eq k) fs then some index else none)
unfolding register_fingerprints
find_key-register_fingerprints k [] index m m' h = cc (h, or_else-none (find_key k m))
find_key-register_fingerprints k (f ∷ fs) index m m' h =
    let (m1, first, others) = bind-returns _ _ h in
    let here = find_key-register k f index duplicate_fingerprint m m1 first in
    let there = find_key-register_fingerprints k fs index m1 m' others in
    there
    ∙ rw here (or_else_assoc (find_key k m) _ _)
    ∙ ap (or_else (find_key k m)) (either (list_eq k f) (any (list_eq k) fs) (some index))

enroll-by_fingerprint :
    (s4 s6 : Option ℕ) (index : ℕ) (i : VpnIdentity) (t t' : RegistryTables)
    → enroll s4 s6 index i t ≡ ok t'
    → register_fingerprints (i.fingerprints) index (t.by_fingerprint) ≡ ok (t'.by_fingerprint)
unfolding enroll
enroll-by_fingerprint s4 s6 index i t t' h = ground arith

find_key-enroll_all :
    (k : List ℕ) (s4 s6 : Option ℕ) (index : ℕ) (is : List VpnIdentity) (t t' : RegistryTables)
    → enroll_all s4 s6 index is t ≡ ok t'
    → find_key k (t'.by_fingerprint) ≡ or_else (find_key k (t.by_fingerprint)) (position k index is)
unfolding enroll_all
find_key-enroll_all k s4 s6 index [] t t' h = cc (h, or_else-none (find_key k (t.by_fingerprint)))
find_key-enroll_all k s4 s6 index (i ∷ is) t t' h =
    let (t1, first, others) = bind-returns _ _ h in
    let here =
      find_key-register_fingerprints k (i.fingerprints) index (t.by_fingerprint) (t1.by_fingerprint)
        (enroll-by_fingerprint s4 s6 index i t t1 first) in
    let there = find_key-enroll_all k s4 s6 (index + 1) is t1 t' others in
    there
    ∙ rw here (or_else_assoc (find_key k (t.by_fingerprint)) _ _)
    ∙ ap (or_else (find_key k (t.by_fingerprint)))
        (default (holds k i) index (position k (index + 1) is))

-- The element at the position that the search finds is the element it finds.
nth-position :
    (k : List ℕ) (all_of : List VpnIdentity) (index : ℕ) (is : List VpnIdentity)
    → ((n : ℕ) → nth (index + n) all_of ≡ nth n is)
    → (j : ℕ) → position k index is ≡ some j
    → nth j all_of ≡ holder k is
unfolding nth
nth-position k all_of index [] same j h = cc
nth-position k all_of index (i ∷ is) same j h = elim (Bool-cases (holds k i)) [
  | inl found ↦ rw found (ap (λ m. nth m all_of) (first (rw (found, if◌then◌else◌) at h)) ∙ same 0)
  | inr missing ↦ rw missing (
      nth-position k all_of (index + 1) is
        (λ n. ap (λ m. nth m all_of) (omega arith) ∙ same (suc n)) j
        (rw (missing, if◌then◌else◌) at h))
]
  where
    first : some index ≡ some j → j ≡ index + 0
    first e = let same_place : index ≡ j = cc in omega arith

-- The two searches find something together.
holder-position :
    (k : List ℕ) (index : ℕ) (is : List VpnIdentity)
    → ((position k index is ≡ none) × (holder k is ≡ none))
      ⊎ ((j : ℕ) × (i : VpnIdentity) × (position k index is ≡ some j) × (holder k is ≡ some i))
holder-position k index [] = inl (refl, refl)
holder-position k index (i ∷ is) = elim (Bool-cases (holds k i)) [
  | inl found ↦ inr (index, i, rw found refl, rw found refl)
  | inr missing ↦ rw missing (holder-position k (index + 1) is)
]

pub registry_new-tables :
    (s4 s6 : Option ℕ) (is : List VpnIdentity) (r : VpnIdentityRegistry)
    → registry_new s4 s6 is ≡ ok r
    → (t : RegistryTables) × (enroll_all s4 s6 0 is no_tables ≡ ok t)
      × (r.identities ≡ is)
      × (r.by_fingerprint ≡ t.by_fingerprint)
      × (r.server_ipv4 ≡ s4)
      × (r.server_ipv6 ≡ s6)
unfolding registry_new
registry_new-tables s4 s6 is r h = elim (Result-cases (enroll_all s4 s6 0 is no_tables)) [
  | inl (t, e) ↦ (t, e, ground arith, ground arith, ground arith, ground arith)
  | inr (x, e) ↦ absurd (ground arith)
]

-- The tables of a registry that `VpnIdentityRegistry::new` has built authorise a fingerprint as the
-- search through its identities does: the first identity that holds the fingerprint, if it is
-- enabled, or the error for its absence or for its state; no index is out of range.
pub authorize-authorize_by_search :
    (server_ipv4 server_ipv6 : Option ℕ) (identities : List VpnIdentity)
    (registry : VpnIdentityRegistry)
    → registry_new server_ipv4 server_ipv6 identities ≡ ok registry
    → (fingerprint : List ℕ)
    → authorize registry fingerprint ≡ authorize_by_search identities fingerprint
unfolding authorize find_key
authorize-authorize_by_search s4 s6 is r h k =
    let (t, built, listed, table, v4, v6) = registry_new-tables s4 s6 is r h in
    let looked_up = find_key-enroll_all k s4 s6 0 is no_tables t built in
    elim (holder-position k 0 is) [
      | inl (absent, nobody) ↦ rw (listed, table, looked_up, absent, nobody) refl
      | inr (j, i, there, somebody) ↦
          rw
            (
              listed,
              table,
              looked_up,
              there,
              nth-position k is 0 is (λ n. ap (λ m. nth m is) (omega arith)) j there,
              somebody,
            )
            refl
    ]

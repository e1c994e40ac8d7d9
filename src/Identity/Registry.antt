-- ===== src/Identity/Registry.antt =====
-- src/vpn_identity.rs, `VpnIdentity` and `VpnIdentityRegistry`. A client id and a fingerprint are lists
-- of bytes; a `HashMap` is an association list whose keys `insert` keeps apart, and a `HashSet` a list.
pub mod Search
pub mod Isolation
use flowweave.Identity.Errors.{
  too_many_identities, duplicate_client_address, vpn_max_identities, too_many_fingerprints,
  duplicate_client_id, vpn_max_fingerprints_per_identity, invalid_server_address,
  client_server_address_conflict, vpn_max_client_id_len, missing_server_address,
  duplicate_fingerprint, address_family_unavailable, VpnIdentityError, invalid_client_id,
  missing_fingerprint,
}
use flowweave.Prelude.{
  ℕ, zero, suc, ◌+◌, ◌-◌, ◌*◌, ◌/◌, ◌%◌, ◌^◌, ◌≤◌, ◌<◌, min, max, bit_and, ◌≡◌, refl, sym, ap,
  subst, ◌∙◌, ◌≢◌, ◌↔◌, ◌⊎◌, inl, inr, arith, ltb, leb, ◌==◌, ==_iff, Bool-cases, Option-cases,
  Result-cases, check-eq_ok, if◌then◌else◌, Bool, true, false, not, ◌&&◌, ◌||◌, Option, none, some,
  List, [], ◌∷◌, length, is_empty, any, all, All, list_eq, list_eq→eq, list_eq_self, Result, ok,
  err, ◌>>=◌, ◌>>◌, fail_if, ok_or, map_err, is_err, is_some, is_none, then_some,
}
use flowweave.Identity.Policy.{
  VpnDataPolicy, VpnIdentityLimits, has_repeat, is_some_and, data_policy, validate_limits,
}
use flowweave.Identity.Network.{VpnIpNetwork}
use flowweave.Control.{valid_ipv4_tunnel_address, valid_ipv6_tunnel_address}

pub record VpnIdentity : Type 0 where
  pub client_id : List ℕ
  pub fingerprints : List (List ℕ)
  pub enabled : Bool
  pub policy : VpnDataPolicy
  pub limits : VpnIdentityLimits

-- ASCII letters and digits, `-`, `_` and `.`.
unfoldable pub client_id_byte : ℕ → Bool
client_id_byte c =
    leb b'0' c && leb c b'9'
    || leb b'A' c && leb c b'Z'
    || leb b'a' c && leb c b'z'
    || c == b'-'
    || c == b'_'
    || c == b'.'

unfoldable pub validate_identity_key : List ℕ → List (List ℕ) → Result (Unit {0}) VpnIdentityError
validate_identity_key client_id fingerprints = do
  fail_if
      (is_empty client_id
        || ltb vpn_max_client_id_len (length client_id)
        || not (all client_id_byte client_id))
      invalid_client_id
  fail_if (is_empty fingerprints) missing_fingerprint
  fail_if (ltb vpn_max_fingerprints_per_identity (length fingerprints)) too_many_fingerprints
  fail_if (has_repeat list_eq fingerprints) duplicate_fingerprint

-- `VpnIdentity::new`.
unfoldable pub identity_new :
    List ℕ
    → List (List ℕ)
    → Bool
    → Option ℕ
    → Option ℕ
    → List VpnIpNetwork
    → VpnIdentityLimits
    → Result VpnIdentity VpnIdentityError
identity_new client_id fingerprints enabled client_ipv4 client_ipv6 destinations limits = do
  validate_identity_key client_id fingerprints
  policy ← data_policy client_ipv4 client_ipv6 destinations
  validate_limits limits
  ok (record {
    client_id = client_id;
    fingerprints = fingerprints;
    enabled = enabled;
    policy = policy;
    limits = limits;
  })

-- `VpnIdentity::validate`.
unfoldable pub validate_identity : VpnIdentity → Result (Unit {0}) VpnIdentityError
validate_identity i = do
  validate_identity_key (i.client_id) (i.fingerprints)
  validate_limits (i.limits)

abbrev pub Index : Type 0
Index = List (List ℕ × ℕ)

-- `HashMap::get`.
unfoldable pub find_key : List ℕ → Index → Option ℕ
find_key key [] = none
find_key key ((k, i) ∷ rest) = if list_eq key k then some i else find_key key rest

-- `if map.insert(key, index).is_some() { return Err(e) }`.
unfoldable pub register : List ℕ → ℕ → VpnIdentityError → Index → Result Index VpnIdentityError
register key index error m = do fail_if (is_some (find_key key m)) error; ok ((key, index) ∷ m)

-- The inner loop of `VpnIdentityRegistry::new`.
unfoldable pub register_fingerprints : List (List ℕ) → ℕ → Index → Result Index VpnIdentityError
register_fingerprints [] index m = ok m
register_fingerprints (f ∷ fs) index m = do
  m' ← register f index duplicate_fingerprint m
  register_fingerprints fs index m'

-- `zip(server).is_some_and(|(client, server)| client == server)`.
unfoldable pub same_address : Option ℕ → Option ℕ → Bool
same_address none server = false
same_address (some client) none = false
same_address (some client) (some server) = client == server

-- `address.is_some_and(|address| !set.insert(address))`, its result and the set after it.
unfoldable pub taken : Option ℕ → List ℕ → Bool
taken address set = is_some_and address (λ a. any (λ b. b == a) set)

unfoldable pub insert_address : Option ℕ → List ℕ → List ℕ
insert_address none set = set
insert_address (some a) set = a ∷ set

pub record RegistryTables : Type 0 where
  pub by_client_id : Index
  pub by_fingerprint : Index
  pub ipv4_addresses : List ℕ
  pub ipv6_addresses : List ℕ

-- The body of the loop of `VpnIdentityRegistry::new`. The two tests of the last step are joined by a
-- short-circuiting `||`, so an error skips the second insertion, which nothing then reads.
unfoldable pub enroll :
    Option ℕ → Option ℕ → ℕ → VpnIdentity → RegistryTables → Result RegistryTables VpnIdentityError
enroll server_ipv4 server_ipv6 index identity t = do
  validate_identity identity
  fail_if
      (is_some (identity.policy.client_ipv4) && is_none server_ipv4
        || is_some (identity.policy.client_ipv6) && is_none server_ipv6)
      address_family_unavailable
  fail_if
      (same_address (identity.policy.client_ipv4) server_ipv4
        || same_address (identity.policy.client_ipv6) server_ipv6)
      client_server_address_conflict
  ids ← register (identity.client_id) index duplicate_client_id (t.by_client_id)
  prints ← register_fingerprints (identity.fingerprints) index (t.by_fingerprint)
  fail_if
      (taken (identity.policy.client_ipv4) (t.ipv4_addresses)
        || taken (identity.policy.client_ipv6) (t.ipv6_addresses))
      duplicate_client_address
  ok (record {
    by_client_id = ids;
    by_fingerprint = prints;
    ipv4_addresses = insert_address (identity.policy.client_ipv4) (t.ipv4_addresses);
    ipv6_addresses = insert_address (identity.policy.client_ipv6) (t.ipv6_addresses);
  })

unfoldable pub enroll_all :
    Option ℕ
    → Option ℕ
    → ℕ
    → List VpnIdentity
    → RegistryTables
    → Result RegistryTables VpnIdentityError
enroll_all server_ipv4 server_ipv6 index [] t = ok t
enroll_all server_ipv4 server_ipv6 index (identity ∷ rest) t = do
  t' ← enroll server_ipv4 server_ipv6 index identity t
  enroll_all server_ipv4 server_ipv6 (index + 1) rest t'

pub record VpnIdentityRegistry : Type 0 where
  pub server_ipv4 : Option ℕ
  pub server_ipv6 : Option ℕ
  pub identities : List VpnIdentity
  pub by_client_id : Index
  pub by_fingerprint : Index

abbrev pub no_tables : RegistryTables
no_tables = record {
  by_client_id = [];
  by_fingerprint = [];
  ipv4_addresses = [];
  ipv6_addresses = [];
}

-- `VpnIdentityRegistry::new`.
unfoldable pub registry_new :
    Option ℕ → Option ℕ → List VpnIdentity → Result VpnIdentityRegistry VpnIdentityError
registry_new server_ipv4 server_ipv6 identities = do
  fail_if (is_none server_ipv4 && is_none server_ipv6) missing_server_address
  fail_if
      (is_some_and server_ipv4 (λ a. not (valid_ipv4_tunnel_address a))
        || is_some_and server_ipv6 (λ a. not (valid_ipv6_tunnel_address a)))
      invalid_server_address
  fail_if (ltb vpn_max_identities (length identities)) too_many_identities
  t ← enroll_all server_ipv4 server_ipv6 0 identities no_tables
  ok (record {
    server_ipv4 = server_ipv4;
    server_ipv6 = server_ipv6;
    identities = identities;
    by_client_id = t.by_client_id;
    by_fingerprint = t.by_fingerprint;
  })

-- The last constructor is the panic of `identities[index]` with an index out of range.
pub data VpnIdentityAuthorizationError : Type 0 where
  unknown_fingerprint identity_disabled index_out_of_range : VpnIdentityAuthorizationError

-- `identities[i]`, where there is such an element.
unfoldable pub nth {ℓ} : {A : Type ℓ} → ℕ → List A → Option A
nth i [] = none
nth zero (x ∷ xs) = some x
nth (suc i) (x ∷ xs) = nth i xs

unfoldable pub authorize :
    VpnIdentityRegistry → List ℕ → Result VpnIdentity VpnIdentityAuthorizationError
authorize registry fingerprint = do
  index ← ok_or (find_key fingerprint (registry.by_fingerprint)) unknown_fingerprint
  identity ← ok_or (nth index (registry.identities)) index_out_of_range
  fail_if (not (identity.enabled)) identity_disabled
  ok identity

-- `VpnIdentityRegistry::identity_by_client_id`; with an index out of range, which is a panic, `none`.
unfoldable pub identity_by_client_id : VpnIdentityRegistry → List ℕ → Option VpnIdentity
identity_by_client_id registry client_id = elim (find_key client_id registry.by_client_id) [
  | none ↦ none
  | some index ↦ nth index registry.identities
]

-- ===== src/Identity/Registry/Isolation.antt =====
-- src/vpn_identity.rs, `VpnIdentityRegistry::new`: the address tables keep the clients apart.
use flowweave.Prelude.{
  ℕ, zero, suc, ◌+◌, ◌≡◌, refl, ap, subst, arith, ◌==◌, ==_iff, bind-returns, Bool, true, false,
  ◌||◌, Option, none, some, List, [], ◌∷◌, any, ok,
}
use flowweave.Identity.Registry.Search.{registry_new-tables}
use flowweave.Packet.{IpAddr}
use flowweave.Identity.Policy.{permits_source, is_some_and}
use flowweave.Identity.Registry.{
  VpnIdentity, taken, insert_address, RegistryTables, enroll, enroll_all, nth, VpnIdentityRegistry,
  registry_new, no_tables,
}

-- The address is in the tables.
held : IpAddr → RegistryTables → Bool
held (IpAddr.v4 a) t = any (λ b. b == a) (t.ipv4_addresses)
held (IpAddr.v6 a) t = any (λ b. b == a) (t.ipv6_addresses)

enroll-addresses :
    (s4 s6 : Option ℕ) (index : ℕ) (i : VpnIdentity) (t t' : RegistryTables)
    → enroll s4 s6 index i t ≡ ok t'
    → (t'.ipv4_addresses ≡ insert_address (i.policy.client_ipv4) (t.ipv4_addresses))
      × (t'.ipv6_addresses ≡ insert_address (i.policy.client_ipv6) (t.ipv6_addresses))
      × (taken (i.policy.client_ipv4) (t.ipv4_addresses) ≡ false)
      × (taken (i.policy.client_ipv6) (t.ipv6_addresses) ≡ false)
unfolding enroll
enroll-addresses s4 s6 index i t t' h = (ground arith, ground arith, ground arith, ground arith)

any-insert_address :
    (o : Option ℕ) (a : ℕ) (set : List ℕ)
    → any (λ b. b == a) (insert_address o set)
      ≡ (is_some_and o (λ x. x == a) || any (λ b. b == a) set)
unfolding insert_address
any-insert_address none a set = refl
any-insert_address (some x) a set = refl

taken-any :
    (o : Option ℕ) (a : ℕ) (set : List ℕ)
    → taken o set ≡ false
    → is_some_and o (λ x. x == a) ≡ true
    → any (λ b. b == a) set ≡ false
unfolding taken
taken-any none a set new same = cc
taken-any (some x) a set new same =
    subst (λ y. any (λ b. b == y) set ≡ false) ((==_iff x a).0 same) new

enroll-held :
    (s4 s6 : Option ℕ) (index : ℕ) (i : VpnIdentity) (t t' : RegistryTables)
    → enroll s4 s6 index i t ≡ ok t'
    → (src : IpAddr)
    → (held src t' ≡ (permits_source (i.policy) src || held src t))
      × (permits_source (i.policy) src ≡ true → held src t ≡ false)
unfolding held permits_source
enroll-held s4 s6 index i t t' h (IpAddr.v4 a) =
    let (after4, after6, new4, new6) = enroll-addresses s4 s6 index i t t' h in
    (
      rw after4 (any-insert_address (i.policy.client_ipv4) a (t.ipv4_addresses)),
      taken-any (i.policy.client_ipv4) a (t.ipv4_addresses) new4,
    )
enroll-held s4 s6 index i t t' h (IpAddr.v6 a) =
    let (after4, after6, new4, new6) = enroll-addresses s4 s6 index i t t' h in
    (
      rw after6 (any-insert_address (i.policy.client_ipv6) a (t.ipv6_addresses)),
      taken-any (i.policy.client_ipv6) a (t.ipv6_addresses) new6,
    )

enroll_all-fresh :
    (s4 s6 : Option ℕ) (index n : ℕ) (is : List VpnIdentity) (t t' : RegistryTables)
    (i : VpnIdentity) (src : IpAddr)
    → enroll_all s4 s6 index is t ≡ ok t'
    → nth n is ≡ some i
    → permits_source (i.policy) src ≡ true
    → held src t ≡ false
unfolding enroll_all nth
enroll_all-fresh s4 s6 index n [] t t' i src h at_n permitted = cc
enroll_all-fresh s4 s6 index zero (x ∷ is) t t' i src h at_n permitted =
    let (t1, first, others) = bind-returns _ _ h in
    let permitted_x : permits_source (x.policy) src ≡ true = cc in
    (enroll-held s4 s6 index x t t1 first src).1 permitted_x
enroll_all-fresh s4 s6 index (suc n) (x ∷ is) t t' i src h at_n permitted =
    let (t1, first, others) = bind-returns _ _ h in
    let later = enroll_all-fresh s4 s6 (index + 1) n is t1 t' i src others at_n permitted in
    let added = (enroll-held s4 s6 index x t t1 first src).0 in ground arith

enroll_all-apart :
    (s4 s6 : Option ℕ) (index n m : ℕ) (is : List VpnIdentity) (t t' : RegistryTables)
    (a b : VpnIdentity) (src : IpAddr)
    → enroll_all s4 s6 index is t ≡ ok t'
    → nth n is ≡ some a
    → nth m is ≡ some b
    → permits_source (a.policy) src ≡ true
    → permits_source (b.policy) src ≡ true
    → n ≡ m
unfolding enroll_all nth
enroll_all-apart s4 s6 index n m [] t t' a b src h at_n at_m pa pb = cc
enroll_all-apart s4 s6 index zero zero (x ∷ is) t t' a b src h at_n at_m pa pb = refl
enroll_all-apart s4 s6 index zero (suc m) (x ∷ is) t t' a b src h at_n at_m pa pb =
    let (t1, first, others) = bind-returns _ _ h in
    let later = enroll_all-fresh s4 s6 (index + 1) m is t1 t' b src others at_m pb in
    let added = (enroll-held s4 s6 index x t t1 first src).0 in
    let pa_x : permits_source (x.policy) src ≡ true = cc in absurd (ground arith)
enroll_all-apart s4 s6 index (suc n) zero (x ∷ is) t t' a b src h at_n at_m pa pb =
    let (t1, first, others) = bind-returns _ _ h in
    let later = enroll_all-fresh s4 s6 (index + 1) n is t1 t' a src others at_n pa in
    let added = (enroll-held s4 s6 index x t t1 first src).0 in
    let pb_x : permits_source (x.policy) src ≡ true = cc in absurd (ground arith)
enroll_all-apart s4 s6 index (suc n) (suc m) (x ∷ is) t t' a b src h at_n at_m pa pb =
    let (t1, first, others) =
      bind-returns (enroll_all s4 s6 (index + 1) is) (enroll s4 s6 index x t) h in
    ap suc (enroll_all-apart s4 s6 (index + 1) n m is t1 t' a b src others at_n at_m pa pb)

-- In a registry that `VpnIdentityRegistry::new` has built, identities at different positions permit
-- no common source address.
pub permits_source-apart :
    (server_ipv4 server_ipv6 : Option ℕ) (identities : List VpnIdentity)
    (registry : VpnIdentityRegistry)
    → registry_new server_ipv4 server_ipv6 identities ≡ ok registry
    → (n m : ℕ) (a b : VpnIdentity) (source : IpAddr) → nth n (registry.identities) ≡ some a
    → nth m (registry.identities) ≡ some b
    → permits_source (a.policy) source ≡ true
    → permits_source (b.policy) source ≡ true
    → n ≡ m
permits_source-apart s4 s6 is r h n m a b src at_n at_m =
    let (t, built, listed, table, v4, v6) = registry_new-tables s4 s6 is r h in
    enroll_all-apart s4 s6 0 n m is no_tables t a b src built
      (subst (λ l. nth n l ≡ some a) listed at_n) (subst (λ l. nth m l ≡ some b) listed at_m)

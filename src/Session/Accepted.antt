-- ===== src/Session/Accepted.antt =====
-- src/vpn_session.rs: the accept that the server sends is one that the client takes.
use flowweave.Session.{
  validate_server_accept, offered_accept, VpnNegotiatedSession, negotiated_capabilities,
  negotiate_vpn_hello, VpnServerNegotiationConfig,
}
use flowweave.Control.{
  vpn_cap_ipv6, select_vpn_wire_version, vpn_cap_ipv4, VpnHello, VpnAccept, validate_hello,
  validate_accept, has, not_u32,
}
use flowweave.Prelude.{
  ℕ, ◌^◌, ◌≤◌, ◌<◌, ◌≡◌, refl, subst, inl, inr, arith, Option-cases, Result-cases, Bool, true,
  false, ◌&&◌, some, List, ok, is_some,
}
use flowweave.Control.Capabilities.{
  IsSupported, validate_capabilities-ok_iff, select_vpn_wire_version-Selected, Selected,
}
use flowweave.Identity.Registry.{VpnIdentityRegistry, authorize}

-- The capabilities of the offer are among those of a HELLO that passes.
within :
    (c : ℕ)
    → IsSupported c
    → (has4 has6 : Bool)
    → has
        (negotiated_capabilities (has c vpn_cap_ipv4 && has4) (has c vpn_cap_ipv6 && has6))
        (not_u32 c)
      ≡ false
unfolding negotiated_capabilities
within c (inl e) true true = rw e refl
within c (inl e) true false = rw e refl
within c (inl e) false true = rw e refl
within c (inl e) false false = rw e refl
within c (inr (inl e)) true true = rw e refl
within c (inr (inl e)) true false = rw e refl
within c (inr (inl e)) false true = rw e refl
within c (inr (inl e)) false false = rw e refl
within c (inr (inr e)) true true = rw e refl
within c (inr (inr e)) true false = rw e refl
within c (inr (inr e)) false true = rw e refl
within c (inr (inr e)) false false = rw e refl

validate_hello-IsSupported :
    (h : VpnHello)
    → h.capabilities < 2 ^ 32
    → validate_hello h ≡ ok tt
    → IsSupported (h.capabilities)
unfolding validate_hello
validate_hello-IsSupported h small valid =
    (validate_capabilities-ok_iff (h.capabilities) small).0 (ground arith)

-- What `negotiate_vpn_hello` has found when it accepts.
abbrev Negotiated :
    VpnIdentityRegistry
    → List ℕ
    → VpnHello
    → VpnServerNegotiationConfig
    → ℕ
    → VpnNegotiatedSession
    → Type 0
Negotiated registry fingerprint h config generation s =
    (validate_hello h ≡ ok tt)
    × (authorize registry fingerprint ≡ ok (s.identity))
    × (selected : ℕ) × (select_vpn_wire_version (h.min_wire_version) (h.max_wire_version)
          (config.min_wire_version) (config.max_wire_version)
        ≡ some selected)
    × (validate_accept (s.accepted) ≡ ok tt)
    × (s.accepted ≡ offered_accept registry (s.identity) h config generation selected)

negotiate_vpn_hello-Negotiated :
    (registry : VpnIdentityRegistry) (fingerprint : List ℕ) (h : VpnHello)
    (config : VpnServerNegotiationConfig) (generation : ℕ) (s : VpnNegotiatedSession)
    → negotiate_vpn_hello registry fingerprint h config generation ≡ ok s
    → Negotiated registry fingerprint h config generation s
unfolding negotiate_vpn_hello
negotiate_vpn_hello-Negotiated registry fingerprint h config generation s e =
    elim (Result-cases (validate_hello h)) [
      | inr (x, v) ↦ absurd (ground arith)
      | inl (u, v) ↦ elim (Result-cases (authorize registry fingerprint)) [
        | inr (x, a) ↦ absurd (ground arith)
        | inl (i, a) ↦
            elim (Option-cases (
              select_vpn_wire_version (h.min_wire_version) (h.max_wire_version)
                (config.min_wire_version) (config.max_wire_version))) [
                  | inl n ↦ absurd (ground arith)
                  | inr (w, n) ↦
                      elim (Result-cases
                        (validate_accept (offered_accept registry i h config generation w))) [
                          | inr (x, p) ↦ absurd (ground arith)
                          | inl (u2, p) ↦
                              let who : s.identity ≡ i = ground arith in
                              let what : s.accepted
                                  ≡ offered_accept registry i h config generation w =
                                ground arith in
                              (v, rw who a, w, n, rw what p, rw who what)
                        ]
                ]
      ]
    ]

validate_server_accept_within :
    (h : VpnHello) (a : VpnAccept)
    → validate_accept a ≡ ok tt
    → h.min_wire_version ≤ a.selected_wire_version
    → a.selected_wire_version ≤ h.max_wire_version
    → has (a.capabilities) (not_u32 (h.capabilities)) ≡ false
    → a.max_ip_packet_len ≤ h.max_ip_packet_len
    → a.max_datagram_len ≤ h.max_datagram_len
    → validate_server_accept h a ≡ ok tt
unfolding validate_server_accept
validate_server_accept_within h a valid low high caps packet datagram =
    rw (valid, caps) (ground arith)

-- A session that the server negotiates for a HELLO of machine words is for the identity that the
-- certificate authorises, and the client's check of the server's accept lets its accept through.
pub validate_server_accept-negotiate_vpn_hello :
    (registry : VpnIdentityRegistry) (fingerprint : List ℕ) (h : VpnHello)
    (config : VpnServerNegotiationConfig) (generation : ℕ) (s : VpnNegotiatedSession)
    → h.capabilities < 2 ^ 32
    → negotiate_vpn_hello registry fingerprint h config generation ≡ ok s
    → (authorize registry fingerprint ≡ ok (s.identity))
      × (validate_server_accept h (s.accepted) ≡ ok tt)
unfolding offered_accept
validate_server_accept-negotiate_vpn_hello registry fingerprint h config generation s small e =
    let (valid, who, w, choice, passes, what) =
      negotiate_vpn_hello-Negotiated registry fingerprint h config generation s e in
    let bounds = subst (Selected _ _ _ _) choice (
      select_vpn_wire_version-Selected (h.min_wire_version) (h.max_wire_version)
        (config.min_wire_version) (config.max_wire_version)) in
    let caps =
      within (h.capabilities) (validate_hello-IsSupported h small valid)
        (is_some (s.identity.policy.client_ipv4)) (is_some (s.identity.policy.client_ipv6)) in
    let (positive, low, low_s, best) = bounds in
    (
      who,
      rw what (
          validate_server_accept_within h
            (offered_accept registry (s.identity) h config generation w)
            (subst (λ a. validate_accept a ≡ ok tt) what passes) low (omega arith) caps
            (omega arith) (omega arith)),
    )

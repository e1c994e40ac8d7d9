-- ===== src/Control/RoundTrip.antt =====
-- Every message that is encoded is read back as it was.
use flowweave.Prelude.{
  ℕ, ◌^◌, ◌≤◌, ◌<◌, ◌≡◌, refl, arith, ◌==◌, Bool, false, list_eq, List, [], ◌∷◌, length, slice,
  to_be_bytes, from_be_bytes-to_be_bytes, Option, none, some, ok, unwrap_or, then_some, is_some,
  check-eq_ok, ◌++◌, bool_ne, not, ◌&&◌, ◌||◌,
}
use flowweave.Control.{
  VpnHello, VpnAccept, VpnReject, VpnControlMessage, hello, accept, reject, VpnRejectReason,
  validate_hello, validate_accept, reason_code, reason_try_from, has, families_disagree,
  vpn_cap_ipv4, vpn_cap_ipv6,
}
use flowweave.Control.Codec.{
  vpn_control_magic, hello_body, accept_body, reject_body, frame, field, accept_fields,
  hello_fields, stray_address, decode_hello, decode_accept, decode_reject, decode_body,
  encode_vpn_control_message, decode_vpn_control_message,
}

-- The values fit the words of the struct.
abbrev pub HelloFits : VpnHello → Type 0
HelloFits h =
    (h.min_wire_version < 2 ^ 16)
    × (h.max_wire_version < 2 ^ 16)
    × (h.capabilities < 2 ^ 32)
    × (h.max_ip_packet_len < 2 ^ 16)
    × (h.max_datagram_len < 2 ^ 16)

abbrev pub OptionFits : ℕ → Option ℕ → Type 0
OptionFits bound none = Unit {0}
OptionFits bound (some a) = a < bound

abbrev pub AcceptFits : VpnAccept → Type 0
AcceptFits a =
    (a.selected_wire_version < 2 ^ 16)
    × (a.capabilities < 2 ^ 32)
    × (a.max_ip_packet_len < 2 ^ 16)
    × (a.max_datagram_len < 2 ^ 16)
    × (a.session_generation < 2 ^ 64)
    × OptionFits (2 ^ 32) a.client_ipv4
    × OptionFits (2 ^ 32) a.server_ipv4
    × OptionFits (2 ^ 128) a.client_ipv6
    × OptionFits (2 ^ 128) a.server_ipv6

abbrev pub Fits : VpnControlMessage → Type 0
Fits (hello h) = HelloFits h
Fits (accept a) = AcceptFits a
Fits (reject r) = r.retry_after_secs < 2 ^ 16

hello_fields-hello_body : (h : VpnHello) → HelloFits h → hello_fields (hello_body h) ≡ h
unfolding hello_body hello_fields to_be_bytes
hello_fields-hello_body h (a, b, c, d, e) = cc (
  from_be_bytes-to_be_bytes 2 h.min_wire_version a,
  from_be_bytes-to_be_bytes 2 h.max_wire_version b,
  from_be_bytes-to_be_bytes 4 h.capabilities c,
  from_be_bytes-to_be_bytes 2 h.max_ip_packet_len d,
  from_be_bytes-to_be_bytes 2 h.max_datagram_len e,
)

length-hello_body : (h : VpnHello) → length (hello_body h) ≡ 12
unfolding hello_body to_be_bytes
length-hello_body h = refl

decode_hello-hello_body :
    (h : VpnHello) → HelloFits h → validate_hello h ≡ ok tt → decode_hello (hello_body h) ≡ ok h
unfolding decode_hello
decode_hello-hello_body h fits v = rw (hello_fields-hello_body h fits, length-hello_body h, v)

-- An optional address is written as 0 when it is missing, and read if the capability is there.
then_some-unwrap_or :
    (b : Bool) (c s : Option ℕ)
    → bool_ne b (is_some c && is_some s) ≡ false
    → bool_ne (is_some c) (is_some s) ≡ false
    → (then_some b (unwrap_or c 0) ≡ c) × (then_some b (unwrap_or s 0) ≡ s)
then_some-unwrap_or b none none e d = ground arith
then_some-unwrap_or b (some x) none e d = ground arith
then_some-unwrap_or b none (some y) e d = ground arith
then_some-unwrap_or b (some x) (some y) e d = ground arith

no_stray :
    (b : Bool) (c s : Option ℕ)
    → bool_ne b (is_some c && is_some s) ≡ false
    → bool_ne (is_some c) (is_some s) ≡ false
    → (not b && (not (unwrap_or c 0 == 0) || not (unwrap_or s 0 == 0))) ≡ false
no_stray b none none e d = ground arith
no_stray b (some x) none e d = ground arith
no_stray b none (some y) e d = ground arith
no_stray b (some x) (some y) e d = ground arith

unwrap_or-lt : (bound : ℕ) (o : Option ℕ) → OptionFits bound o → 0 < bound → unwrap_or o 0 < bound
unwrap_or-lt bound none h p = p
unwrap_or-lt bound (some a) h p = h

-- What the four address fields of a body hold.
record Addresses (a : VpnAccept) (body : List ℕ) : Type 0 where
  client4 : field body 20 4 ≡ unwrap_or a.client_ipv4 0
  server4 : field body 24 4 ≡ unwrap_or a.server_ipv4 0
  client6 : field body 28 16 ≡ unwrap_or a.client_ipv6 0
  server6 : field body 44 16 ≡ unwrap_or a.server_ipv6 0

accept_body-Addresses : (a : VpnAccept) → AcceptFits a → Addresses a (accept_body a)
unfolding accept_body to_be_bytes
accept_body-Addresses a (_, _, _, _, _, c4, s4, c6, s6) = record {
  client4 = from_be_bytes-to_be_bytes 4 _ (unwrap_or-lt (2 ^ 32) a.client_ipv4 c4 (omega arith));
  server4 = from_be_bytes-to_be_bytes 4 _ (unwrap_or-lt (2 ^ 32) a.server_ipv4 s4 (omega arith));
  client6 = from_be_bytes-to_be_bytes 16 _ (unwrap_or-lt (2 ^ 128) a.client_ipv6 c6 (omega arith));
  server6 = from_be_bytes-to_be_bytes 16 _ (unwrap_or-lt (2 ^ 128) a.server_ipv6 s6 (omega arith));
}

record Words (a : VpnAccept) (body : List ℕ) : Type 0 where
  size : length body ≡ 60
  reserved : slice 2 2 body ≡ 0 ∷ 0 ∷ []
  version : field body 0 2 ≡ a.selected_wire_version
  capabilities : field body 4 4 ≡ a.capabilities
  packet : field body 8 2 ≡ a.max_ip_packet_len
  datagram : field body 10 2 ≡ a.max_datagram_len
  generation : field body 12 8 ≡ a.session_generation

accept_body-Words : (a : VpnAccept) → AcceptFits a → Words a (accept_body a)
unfolding accept_body to_be_bytes
accept_body-Words a (v, c, p, d, g, _, _, _, _) = record {
  size = refl;
  reserved = refl;
  version = from_be_bytes-to_be_bytes 2 a.selected_wire_version v;
  capabilities = from_be_bytes-to_be_bytes 4 a.capabilities c;
  packet = from_be_bytes-to_be_bytes 2 a.max_ip_packet_len p;
  datagram = from_be_bytes-to_be_bytes 2 a.max_datagram_len d;
  generation = from_be_bytes-to_be_bytes 8 a.session_generation g;
}

or_false :
    (a b c d : Bool)
    → (a || b || c || d) ≡ false
    → (a ≡ false) × (b ≡ false) × (c ≡ false) × (d ≡ false)
or_false a b c d h = ground arith

-- The capabilities and the addresses of an accepted `a` agree, family by family.
abbrev Families : VpnAccept → Type 0
Families a =
    (bool_ne (has a.capabilities vpn_cap_ipv4) (is_some a.client_ipv4 && is_some a.server_ipv4)
      ≡ false)
    × (bool_ne (has a.capabilities vpn_cap_ipv6) (is_some a.client_ipv6 && is_some a.server_ipv6)
        ≡ false)
    × (bool_ne (is_some a.client_ipv4) (is_some a.server_ipv4) ≡ false)
    × (bool_ne (is_some a.client_ipv6) (is_some a.server_ipv6) ≡ false)

families_disagree-false : (a : VpnAccept) → validate_accept a ≡ ok tt → families_disagree a ≡ false
unfolding validate_accept
families_disagree-false a v = ground arith

validate_accept-Families : (a : VpnAccept) → validate_accept a ≡ ok tt → Families a
unfolding families_disagree
validate_accept-Families a v = or_false _ _ _ _ (families_disagree-false a v)

fields :
    (a : VpnAccept) (body : List ℕ)
    → Words a body
    → Addresses a body
    → Families a
    → accept_fields body ≡ a
unfolding accept_fields
fields a body w d f =
    rw
      (
        w.version, w.capabilities, w.packet, w.datagram, w.generation, d.client4, d.server4,
        d.client6, d.server6,
      )
      (cc (four.0, four.1, six.0, six.1))
  where
    four :
        (then_some (has a.capabilities vpn_cap_ipv4) (unwrap_or a.client_ipv4 0) ≡ a.client_ipv4)
        × (then_some (has a.capabilities vpn_cap_ipv4) (unwrap_or a.server_ipv4 0) ≡ a.server_ipv4)
    four = then_some-unwrap_or (has a.capabilities vpn_cap_ipv4) a.client_ipv4 a.server_ipv4 f.0 f.2

    six :
        (then_some (has a.capabilities vpn_cap_ipv6) (unwrap_or a.client_ipv6 0) ≡ a.client_ipv6)
        × (then_some (has a.capabilities vpn_cap_ipv6) (unwrap_or a.server_ipv6 0) ≡ a.server_ipv6)
    six = then_some-unwrap_or (has a.capabilities vpn_cap_ipv6) a.client_ipv6 a.server_ipv6 f.1 f.3

stray_address-false :
    (a : VpnAccept) (body : List ℕ)
    → Addresses a body
    → Families a
    → stray_address body a.capabilities ≡ false
unfolding stray_address
stray_address-false a body d f = rw (
  d.client4,
  d.server4,
  d.client6,
  d.server6,
  no_stray (has a.capabilities vpn_cap_ipv4) a.client_ipv4 a.server_ipv4 f.0 f.2,
  no_stray (has a.capabilities vpn_cap_ipv6) a.client_ipv6 a.server_ipv6 f.1 f.3,
)

accept_fields-accept_body :
    (a : VpnAccept) → AcceptFits a → validate_accept a ≡ ok tt → accept_fields (accept_body a) ≡ a
accept_fields-accept_body a fits v =
    let w = accept_body-Words a fits in
    let d = accept_body-Addresses a fits in
    let f = validate_accept-Families a v in fields a (accept_body a) w d f

decode_accept-accept_body :
    (a : VpnAccept)
    → AcceptFits a
    → validate_accept a ≡ ok tt
    → decode_accept (accept_body a) ≡ ok a
unfolding decode_accept list_eq
decode_accept-accept_body a fits v =
    let w = accept_body-Words a fits in
    let d = accept_body-Addresses a fits in
    rw (
      accept_fields-accept_body a fits v,
      w.size,
      w.reserved,
      w.capabilities,
      stray_address-false a (accept_body a) d (validate_accept-Families a v),
      v,
    )

reason_try_from-reason_code : (r : VpnRejectReason) → reason_try_from (reason_code r) ≡ ok r
unfolding reason_try_from reason_code
reason_try_from-reason_code VpnRejectReason.unsupported_version = refl
reason_try_from-reason_code VpnRejectReason.unauthorized = refl
reason_try_from-reason_code VpnRejectReason.identity_disabled = refl
reason_try_from-reason_code VpnRejectReason.address_in_use = refl
reason_try_from-reason_code VpnRejectReason.resource_limit = refl
reason_try_from-reason_code VpnRejectReason.policy_rejected = refl
reason_try_from-reason_code VpnRejectReason.protocol_violation = refl

reason_code-lt : (r : VpnRejectReason) → reason_code r < 2 ^ 16
unfolding reason_code
reason_code-lt VpnRejectReason.unsupported_version = omega arith
reason_code-lt _ = omega arith

decode_reject-reject_body :
    (r : VpnReject) → r.retry_after_secs < 2 ^ 16 → decode_reject (reject_body r) ≡ ok r
unfolding decode_reject reject_body to_be_bytes
decode_reject-reject_body r h = rw (
  from_be_bytes-to_be_bytes 2 (reason_code r.reason) (reason_code-lt r.reason),
  reason_try_from-reason_code r.reason,
  from_be_bytes-to_be_bytes 2 r.retry_after_secs h,
)

-- A short body behind its header reaches the decoder of its type.
abbrev pub framed : ℕ → List ℕ → List ℕ
framed message_type body =
    vpn_control_magic ++ 1 ∷ message_type ∷ (to_be_bytes 2 (length body) ++ body)

pub frame-framed :
    (message_type : ℕ) (body : List ℕ)
    → length body ≤ 248
    → frame message_type body ≡ ok (framed message_type body)
unfolding frame
frame-framed message_type body h = ground arith

decode-framed :
    (message_type : ℕ) (body : List ℕ)
    → length body ≤ 248
    → decode_vpn_control_message (framed message_type body) ≡ decode_body message_type body
unfolding decode_vpn_control_message list_eq to_be_bytes
decode-framed message_type body h =
    ground (arith, from_be_bytes-to_be_bytes 2 (length body) (omega arith))

-- A validated body of a type comes back behind its frame.
decode-frame :
    (message_type : ℕ) (body bytes : List ℕ) (m : VpnControlMessage)
    → length body ≤ 248
    → frame message_type body ≡ ok bytes
    → decode_body message_type body ≡ ok m
    → decode_vpn_control_message bytes ≡ ok m
decode-frame message_type body bytes m h e d =
    cc (frame-framed message_type body h, decode-framed message_type body h, e, d)

-- Whatever message is encoded is decoded to itself, HELLO, ACCEPT and REJECT alike.
pub decode-encode_vpn_control_message :
    (m : VpnControlMessage) (bytes : List ℕ)
    → Fits m
    → encode_vpn_control_message m ≡ ok bytes
    → decode_vpn_control_message bytes ≡ ok m
unfolding encode_vpn_control_message decode_body
decode-encode_vpn_control_message (hello h) bytes fits e =
    let (v, f) = check-eq_ok (validate_hello h) (frame 1 (hello_body h)) e in
    decode-frame 1 (hello_body h) bytes (hello h) (omega (arith, length-hello_body h)) f
      (rw (decode_hello-hello_body h fits v))
decode-encode_vpn_control_message (accept a) bytes fits e =
    let (v, f) = check-eq_ok (validate_accept a) (frame 2 (accept_body a)) e in
    decode-frame 2 (accept_body a) bytes (accept a) (unfold accept_body to_be_bytes in omega arith)
      f (rw (decode_accept-accept_body a fits v))
decode-encode_vpn_control_message (reject r) bytes fits e =
    decode-frame 3 (reject_body r) bytes (reject r) (unfold reject_body to_be_bytes in omega arith)
      e (rw (decode_reject-reject_body r fits))

-- ===== src/Control/Canonical.antt =====
-- A message has one encoding: what is decoded is encoded to the same bytes.
use flowweave.Prelude.{
  ℕ, ◌+◌, ◌≤◌, ◌≡◌, refl, sym, ap, ap₂, ◌∙◌, subst, arith, ◌==◌, Bool, true, false, not, ◌&&◌, ◌||◌,
  list_eq, list_eq→eq, List, [], ◌∷◌, ◌++◌, length, slice, take, drop, drop-drop, take-append-drop,
  take_all, length-take, length-drop, All, All-take, All-drop, IsByte, to_be_bytes, from_be_bytes,
  to_be_bytes-from_be_bytes, ok, unwrap_or, then_some, get_or, drop-get_or,
}
use flowweave.Control.{
  VpnHello, VpnAccept, VpnReject, VpnControlMessage, hello, accept, reject, VpnRejectReason,
  validate_hello, validate_accept, reason_code, reason_try_from, has, vpn_cap_ipv4, vpn_cap_ipv6,
}
use flowweave.Control.RoundTrip.{framed, frame-framed}
use flowweave.Control.Codec.{
  vpn_control_magic, hello_body, accept_body, reject_body, frame, field, accept_fields,
  hello_fields, stray_address, decode_hello, decode_accept, decode_reject, decode_body,
  encode_vpn_control_message, decode_vpn_control_message,
}

-- The number in a field is written back as the bytes that it was read from.
to_be_bytes-field :
    (body : List ℕ) (from count : ℕ)
    → All IsByte body
    → from + count ≤ length body
    → to_be_bytes count (field body from count) ≡ slice from count body
to_be_bytes-field body from count bs h =
    to_be_bytes-from_be_bytes (slice from count body) count
      (All-take IsByte count (drop from body) (All-drop IsByte from body bs))
      (omega (arith, length-take count (drop from body), length-drop from body))

slice-append-drop :
    (from count : ℕ) (xs : List ℕ) → slice from count xs ++ drop (from + count) xs ≡ drop from xs
slice-append-drop from count xs =
    rw (← drop-drop count from xs) (take-append-drop count (drop from xs))

-- Writing a field before what follows it gives what starts at the field.
put_field :
    (body rest : List ℕ) (from count v : ℕ)
    → All IsByte body
    → from + count ≤ length body
    → v ≡ field body from count
    → rest ≡ drop (from + count) body
    → to_be_bytes count v ++ rest ≡ drop from body
put_field body rest from count v bs h p e =
    rw (p, to_be_bytes-field body from count bs h, e) (slice-append-drop from count body)

last_field :
    (body : List ℕ) (from count v : ℕ)
    → All IsByte body
    → from + count ≡ length body
    → v ≡ field body from count
    → to_be_bytes count v ≡ drop from body
last_field body from count v bs h p =
    rw p (to_be_bytes-field body from count bs (omega arith))
    ∙ take_all count (drop from body) (omega (arith, length-drop from body))

hello_body-hello_fields :
    (body : List ℕ) → All IsByte body → length body ≡ 12 → hello_body (hello_fields body) ≡ body
unfolding hello_body hello_fields
hello_body-hello_fields body bs h = put_field body _ 0 2 _ bs (omega arith) refl (
    put_field body _ 2 2 _ bs (omega arith) refl (
      put_field body _ 4 4 _ bs (omega arith) refl (
        put_field body _ 8 2 _ bs (omega arith) refl
          (last_field body 10 2 _ bs (omega arith) refl))))

-- An address field without its capability holds 0, so it is written back as it was.
kept_address :
    (b : Bool) (client server : ℕ)
    → (not b && (not (client == 0) || not (server == 0))) ≡ false
    → (unwrap_or (then_some b client) 0 ≡ client) × (unwrap_or (then_some b server) 0 ≡ server)
kept_address true client server h = (refl, refl)
kept_address false client server h = ground arith

or-false : (a b : Bool) → (a || b) ≡ false → (a ≡ false) × (b ≡ false)
or-false a b h = ground arith

reserved_zero : (reserved : List ℕ) → reserved ≡ 0 ∷ 0 ∷ [] → 0 ≡ from_be_bytes reserved
unfolding from_be_bytes
reserved_zero reserved z = rw z

accept_body-accept_fields :
    (body : List ℕ)
    → All IsByte body
    → length body ≡ 60
    → slice 2 2 body ≡ 0 ∷ 0 ∷ []
    → stray_address body (field body 4 4) ≡ false
    → accept_body (accept_fields body) ≡ body
unfolding accept_body accept_fields stray_address
accept_body-accept_fields body bs h z s = put_field body _ 0 2 _ bs (omega arith) refl (
    put_field body _ 2 2 _ bs (omega arith) (reserved_zero (slice 2 2 body) z) (
      put_field body _ 4 4 _ bs (omega arith) refl (
        put_field body _ 8 2 _ bs (omega arith) refl (
          put_field body _ 10 2 _ bs (omega arith) refl (
            put_field body _ 12 8 _ bs (omega arith) refl (
              put_field body _ 20 4 _ bs (omega arith) (kept_address _ _ _ both.0).0 (
                put_field body _ 24 4 _ bs (omega arith)
                  (kept_address _ (field body 20 4) _ both.0).1
                  (put_field body _ 28 16 _ bs (omega arith) (kept_address _ _ _ both.1).0 (
                    last_field body 44 16 _ bs (omega arith)
                      (kept_address _ (field body 28 16) _ both.1).1)))))))))
  where
    both :
        ((not (has (field body 4 4) vpn_cap_ipv4)
            && (not (field body 20 4 == 0) || not (field body 24 4 == 0)))
          ≡ false)
        × ((not (has (field body 4 4) vpn_cap_ipv6)
              && (not (field body 28 16 == 0) || not (field body 44 16 == 0)))
            ≡ false)
    both =
        or-false
          (not (has (field body 4 4) vpn_cap_ipv4)
            && (not (field body 20 4 == 0) || not (field body 24 4 == 0)))
          (not (has (field body 4 4) vpn_cap_ipv6)
            && (not (field body 28 16 == 0) || not (field body 44 16 == 0)))
          s

reason_code-reason_try_from :
    (v : ℕ) (r : VpnRejectReason) → reason_try_from v ≡ ok r → reason_code r ≡ v
unfolding reason_try_from reason_code
reason_code-reason_try_from v r h = ground arith

reject_body-decode_reject :
    (body : List ℕ) (r : VpnReject)
    → All IsByte body
    → decode_reject body ≡ ok r
    → reject_body r ≡ body
unfolding decode_reject reject_body
reject_body-decode_reject body r bs e =
    put_field body _ 0 2 _ bs (omega (arith, size)) code
      (last_field body 2 2 _ bs (omega (arith, size)) retry)
  where
    size : length body ≡ 4
    size = ground arith

    code : reason_code r.reason ≡ field body 0 2
    code = reason_code-reason_try_from (field body 0 2) r.reason (ground arith)

    retry : r.retry_after_secs ≡ field body 2 2
    retry = ground arith

hello_body-decode_hello :
    (body : List ℕ) (h : VpnHello)
    → All IsByte body
    → decode_hello body ≡ ok h
    → (hello_body h ≡ body) × (validate_hello h ≡ ok tt) × (length body ≡ 12)
unfolding decode_hello
hello_body-decode_hello body h bs e =
    let read : hello_fields body ≡ h = ground arith in
    let size : length body ≡ 12 = ground arith in
    let valid : validate_hello (hello_fields body) ≡ ok tt = ground arith in
    (
      ap hello_body (sym read) ∙ hello_body-hello_fields body bs size,
      subst (λ x. validate_hello x ≡ ok tt) read valid,
      size,
    )

accept_body-decode_accept :
    (body : List ℕ) (a : VpnAccept)
    → All IsByte body
    → decode_accept body ≡ ok a
    → (accept_body a ≡ body) × (validate_accept a ≡ ok tt) × (length body ≡ 60)
unfolding decode_accept
accept_body-decode_accept body a bs e =
    let read : accept_fields body ≡ a = ground arith in
    let size : length body ≡ 60 = ground arith in
    let zero_reserved : list_eq (slice 2 2 body) (0 ∷ 0 ∷ []) ≡ true = ground arith in
    let no_stray : stray_address body (field body 4 4) ≡ false = ground arith in
    let valid : validate_accept (accept_fields body) ≡ ok tt = ground arith in
    (
      ap accept_body (sym read)
          ∙ accept_body-accept_fields body bs size (list_eq→eq _ _ zero_reserved) no_stray,
      subst (λ x. validate_accept x ≡ ok tt) read valid,
      size,
    )

-- The tests of the decoder, and what it hands on.
record Header (bytes : List ℕ) (m : VpnControlMessage) : Type 0 where
  long : 8 ≤ length bytes
  short : length bytes ≤ 256
  magic : take 4 bytes ≡ vpn_control_magic
  version : get_or bytes 4 0 ≡ 1
  size : 8 + field bytes 6 2 ≡ length bytes
  body : decode_body (get_or bytes 5 0) (drop 8 bytes) ≡ ok m

decode-Header :
    (bytes : List ℕ) (m : VpnControlMessage)
    → decode_vpn_control_message bytes ≡ ok m
    → Header bytes m
unfolding decode_vpn_control_message
decode-Header bytes m e =
    let magic : list_eq (take 4 bytes) vpn_control_magic ≡ true = ground arith in
    record {
      long = ground arith;
      short = ground arith;
      magic = list_eq→eq _ _ magic;
      version = ground arith;
      size = ground arith;
      body = ground arith;
    }

-- The frame of the body is the message.
frame-drop :
    (bytes : List ℕ) (m : VpnControlMessage)
    → All IsByte bytes
    → Header bytes m
    → frame (get_or bytes 5 0) (drop 8 bytes) ≡ ok bytes
frame-drop bytes m bs h =
    frame-framed (get_or bytes 5 0) (drop 8 bytes) (omega (arith, length-drop 8 bytes, h.short))
    ∙ ap ok whole
  where
    left : length (drop 8 bytes) ≡ field bytes 6 2
    left = omega (arith, length-drop 8 bytes, h.size)

    after_header : to_be_bytes 2 (length (drop 8 bytes)) ++ drop 8 bytes ≡ drop 6 bytes
    after_header = put_field bytes _ 6 2 _ bs (omega (arith, h.long)) left refl

    whole : framed (get_or bytes 5 0) (drop 8 bytes) ≡ bytes
    whole =
        let b5 = get_or bytes 5 0 in
        ap (λ (xs : List ℕ). vpn_control_magic ++ 1 ∷ b5 ∷ xs) after_header
        ∙ ap₂ (λ (xs : List ℕ) (v : ℕ). xs ++ v ∷ b5 ∷ drop 6 bytes) (sym h.magic) (sym h.version)
        ∙ ap (λ xs. take 4 bytes ++ xs) from_four
        ∙ take-append-drop 4 bytes
      where
        from_four : get_or bytes 4 0 ∷ get_or bytes 5 0 ∷ drop 6 bytes ≡ drop 4 bytes
        from_four =
            rw (← drop-get_or 5 bytes 0 (omega (arith, h.long)))
              (sym (drop-get_or 4 bytes 0 (omega (arith, h.long))))

-- Which type and body a decoded message comes from.
abbrev FromBody : ℕ → List ℕ → VpnControlMessage → Type 0
FromBody t body (hello h) = (t ≡ 1) × (decode_hello body ≡ ok h)
FromBody t body (accept a) = (t ≡ 2) × (decode_accept body ≡ ok a)
FromBody t body (reject r) = (t ≡ 3) × (decode_reject body ≡ ok r)

decode_body-FromBody :
    (t : ℕ) (body : List ℕ) (m : VpnControlMessage) → decode_body t body ≡ ok m → FromBody t body m
unfolding decode_body
decode_body-FromBody t body (hello h) e = ground arith
decode_body-FromBody t body (accept a) e = ground arith
decode_body-FromBody t body (reject r) e = ground arith

encode-FromBody :
    (t : ℕ) (body bytes : List ℕ) (m : VpnControlMessage)
    → All IsByte body
    → FromBody t body m
    → frame t body ≡ ok bytes
    → encode_vpn_control_message m ≡ ok bytes
unfolding encode_vpn_control_message
encode-FromBody t body bytes (hello h) bs (p, e) f =
    let (w, v, _) = hello_body-decode_hello body h bs e in rw (v, w, ← p) f
encode-FromBody t body bytes (accept a) bs (p, e) f =
    let (w, v, _) = accept_body-decode_accept body a bs e in rw (v, w, ← p) f
encode-FromBody t body bytes (reject r) bs (p, e) f =
    rw (reject_body-decode_reject body r bs e, ← p) f

-- Bytes that decode to a message are the encoding of that message: no two byte strings decode to
-- the same message, and nothing that the encoder would refuse is accepted.
pub encode-decode_vpn_control_message :
    (bytes : List ℕ) (m : VpnControlMessage)
    → All IsByte bytes
    → decode_vpn_control_message bytes ≡ ok m
    → encode_vpn_control_message m ≡ ok bytes
encode-decode_vpn_control_message bytes m bs e =
    let h = decode-Header bytes m e in
    let t = get_or bytes 5 0 in
    encode-FromBody t (drop 8 bytes) bytes m (All-drop IsByte 8 bytes bs)
      (decode_body-FromBody t (drop 8 bytes) m h.body) (frame-drop bytes m bs h)

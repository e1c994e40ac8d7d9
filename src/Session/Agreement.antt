-- ===== src/Session/Agreement.antt =====
-- src/vpn_session.rs, both sides of the handshake: they end with the same answer.
use flowweave.Prelude.{
  ℕ, ◌^◌, ◌<◌, ◌≡◌, refl, inl, inr, arith, Result-cases, true, some, List, [], Result, ok, err,
}
use flowweave.Control.{VpnHello, VpnAccept, VpnControlMessage, hello}
use flowweave.Control.Codec.{encode_vpn_control_message}
use flowweave.Control.RoundTrip.{Fits, HelloFits, decode-encode_vpn_control_message}
use flowweave.Identity.Registry.{VpnIdentityRegistry}
use flowweave.Session.{VpnServerNegotiationConfig, negotiate_vpn_hello, VpnSessionError, rejected}
use flowweave.Session.Handshake.{
  VpnServerControlOutcome, accepted_session, rejected_session, Connection, read_control_message,
  client_answer, client_exchange, server_outcome, server_exchange, reply, write_control_message,
}
use flowweave.Session.Accepted.{validate_server_accept-negotiate_vpn_hello}

-- What the client returns at the end of a handshake with this outcome.
abbrev pub client_view : VpnServerControlOutcome → Result VpnAccept VpnSessionError
client_view (accepted_session s) = ok (s.accepted)
client_view (rejected_session r) = err (rejected r)

-- The stream worked on this side.
abbrev pub StreamWorks : Connection → Type 0
StreamWorks c = (c.stream_opened ≡ true) × (c.write_done ≡ true) × (c.finish_done ≡ true)

read_control_message-encoded :
    (m : VpnControlMessage) (bytes : List ℕ)
    → Fits m
    → encode_vpn_control_message m ≡ ok bytes
    → read_control_message (some bytes) ≡ ok m
unfolding read_control_message
read_control_message-encoded m bytes fits e =
    rw (decode-encode_vpn_control_message m bytes fits e) refl

client_answer-outcome :
    (registry : VpnIdentityRegistry) (fingerprint : List ℕ) (config : VpnServerNegotiationConfig)
    (generation : ℕ) (h : VpnHello) (outcome : VpnServerControlOutcome)
    → h.capabilities < 2 ^ 32
    → server_outcome registry fingerprint config generation (ok (hello h)) ≡ ok outcome
    → client_answer h (reply outcome) ≡ client_view outcome
unfolding server_outcome client_answer reply
client_answer-outcome registry fingerprint config generation h outcome small e =
    elim (Result-cases (negotiate_vpn_hello registry fingerprint h config generation)) [
      | inl (s, n) ↦
          let it : outcome ≡ accepted_session s = cc in
          rw
            (
              it,
              (validate_server_accept-negotiate_vpn_hello registry fingerprint h config generation s
                  small n).1,
            )
            refl
      | inr (r, n) ↦ let it : outcome ≡ rejected_session r = cc in rw it refl
    ]

server_exchange-reply :
    (c : Connection) (registry : VpnIdentityRegistry) (fingerprint : List ℕ)
    (config : VpnServerNegotiationConfig) (generation : ℕ) (outcome : VpnServerControlOutcome)
    (answer : List ℕ)
    → server_exchange c registry fingerprint config generation ≡ ok (outcome, answer)
    → (server_outcome registry fingerprint config generation (read_control_message (c.received []))
        ≡ ok outcome)
      × (encode_vpn_control_message (reply outcome) ≡ ok answer)
unfolding server_exchange write_control_message
server_exchange-reply c registry fingerprint config generation outcome answer e =
    elim (Result-cases (
      server_outcome registry fingerprint config generation
        (read_control_message (c.received [])))) [
          | inr (x, o) ↦ absurd (ground arith)
          | inl (o, made) ↦ elim (Result-cases (encode_vpn_control_message (reply o))) [
            | inr (x, w) ↦ absurd (ground arith)
            | inl (bytes, w) ↦
                let same : (outcome ≡ o) × (answer ≡ bytes) = ground arith in
                (rw (same.0) made, rw (same.0, same.1) w)
          ]
        ]

-- Where the bytes of each side reach the other and the values fit their words, the client returns
-- the accept of the session that the server has made, or the rejection that the server has sent.
pub client_exchange-server_exchange :
    (client server : Connection) (registry : VpnIdentityRegistry) (fingerprint : List ℕ)
    (config : VpnServerNegotiationConfig) (generation : ℕ) (h : VpnHello) (sent answer : List ℕ)
    (outcome : VpnServerControlOutcome)
    → StreamWorks client
    → HelloFits h
    → encode_vpn_control_message (hello h) ≡ ok sent
    → server.received [] ≡ some sent
    → server_exchange server registry fingerprint config generation ≡ ok (outcome, answer)
    → client.received sent ≡ some answer
    → Fits (reply outcome)
    → client_exchange client h ≡ client_view outcome
unfolding client_exchange write_control_message
client_exchange-server_exchange client server registry fingerprint config generation h sent answer
      outcome (opened, written, finished) fits encoded arrives e returns reply_fits =
    let (made, replied) =
      server_exchange-reply server registry fingerprint config generation outcome answer e in
    let read = read_control_message-encoded (hello h) sent fits encoded in
    let back = read_control_message-encoded (reply outcome) answer reply_fits replied in
    rw (opened, encoded, written, finished, returns, back)
      (client_answer-outcome registry fingerprint config generation h outcome (fits.2)
        (rw (arrives, read) at made))

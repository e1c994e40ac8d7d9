-- ===== src/Lib.antt =====
-- FlowWeave's VPN: the checks and codecs that stand between untrusted bytes and the network.
--
-- A client and a server exchange IP packets in QUIC datagrams. A packet is inspected and cut into
-- fragments, one to a datagram; the receiver collects the fragments in a bounded reassembler.
-- Before that they agree on a session by control messages.
--
-- File Prelude: shared names, words, bytes, lists, results.
-- File Packet: src/vpn.rs, the inspection of IP packets.
-- File Fragment: src/vpn.rs, encode_vpn_ip_fragments and decode_vpn_ip_fragment.
-- File Reassembly: src/vpn.rs, VpnReassembler. The state is a record with the struct's fields;
-- each method is a function to the new state and its result, also when the result is an error.
-- File Identity: src/vpn_identity.rs, fingerprints, networks, data policies, identities and their
-- registry. Its hash tables are association lists.
-- File Session: src/vpn_session.rs, negotiate_vpn_hello and both sides of the control handshake.
-- What the QUIC connection returns is a record that the functions take, with the peer's answer as
-- a function of the bytes sent.
-- File DataPolicy: src/vpn_data_policy.rs, the decision on a packet in each direction, and the
-- counters; DataPolicy/Permission and DataPolicy/Verdict describe it without the code's tests, by
-- the bytes and the addresses.
-- File Quota: src/vpn_quota.rs, the rate limiter of an identity; its state is behind a mutex, so a
-- call is one step.
-- File Quota/Budget: src/vpn_quota.rs, the global reassembly budget. Its counters are atomic and
-- shared; a call is one step, and the panic of a subtraction below 0 is none.
-- File DataPath: src/vpn_data_path.rs, the state of a data path and its methods; the lock of the
-- state makes a call one step, but for the policy counters, which it counts after the lock. The
-- quota counters are one object that the rate limiter, the data path and the budget share: they
-- stand in the limiter.
-- File DataPath/Gate: what the two methods that pass packets let through.
-- File DataPath/Server: data paths that share a budget, and the sequences of their calls.
-- File Active: src/vpn_active_session.rs, the coordinator of the active sessions, one to a client.
-- Its lock makes a method one step; a connection is a number, and the connections that a method
-- closes are part of its result.
-- File Control: src/vpn_control.rs, the HELLO, ACCEPT and REJECT messages, their validation and
-- bytes.
--
-- A machine word is a natural number, and its width is a condition of the theorems that need it;
-- saturating and checked operations are written out. A byte is a number below 256. Instants and
-- durations are counts of nanoseconds. A Rust map is an association list: its iteration order is
-- that of the list, and the theorems hold for every list.
--
-- slice::chunks has the number of bytes as its fuel, and the loops of make_room the number of
-- packets; each round takes at least one of them. The loop of make_identity_room has one round
-- more than there are packets in progress, since a round that goes on takes a packet.
--
-- Not modelled: the handshake that ends in a commit, the reload from a file, the client's data
-- path, snapshots, the messages of Display, the TLS and QUIC libraries, the files and devices, the
-- proxy and the laboratory programs.
pub mod Prelude
pub mod Packet
pub mod Fragment
pub mod Control
pub mod Reassembly
pub mod Identity
pub mod Session
pub mod DataPolicy
pub mod Quota
pub mod DataPath
pub mod Active

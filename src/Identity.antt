-- ===== src/Identity.antt =====
-- src/vpn_identity.rs: who may connect, with which addresses, to which networks, at which rates.
pub mod Errors
pub mod Fingerprint
pub mod Network
pub mod Policy
pub mod Registry
pub mod Runs

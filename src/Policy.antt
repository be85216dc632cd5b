-- ===== src/Policy.antt =====
-- The crate policy: identities, addresses, the enrolment policy and the gateway contract.
pub mod Ids
pub mod Address
pub mod Timestamp
pub mod Canonical
pub mod Digest
pub mod Delivery
pub mod Report
pub mod Vpn
pub mod Manifest

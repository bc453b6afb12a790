-- ===== src/Identity.antt =====
-- internal/identity: device ids, peer records and the trust store.
pub mod Types
pub mod DeviceId
pub mod TrustStore
pub mod Samples
pub mod OwnedProof
pub mod KeyFile
pub mod Unlock

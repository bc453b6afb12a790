-- ===== src/RemoteFs.antt =====
-- internal/caps/remotefs: the paths a peer may ask for, and the block cache.
pub mod WirePath
pub mod Cache

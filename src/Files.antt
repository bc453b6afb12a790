-- ===== src/Files.antt =====
-- internal/caps/files: how a file transfer is cut into chunks, which chunks have arrived, and where
-- they may be written.
pub mod Plan
pub mod Path
pub mod ChunkSet

-- ===== src/Paths.antt =====
-- internal/path: how two devices find a way to one another.
pub mod Stun

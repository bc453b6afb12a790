-- ===== src/Pairing.antt =====
-- internal/pairing: the exchange that pins two devices to each other, and what it guards.
pub mod Sas
pub mod Offer
pub mod Guard
pub mod Authorize

-- ===== src/Wireless.antt =====
-- The radios and their networks: wireless.js.
pub mod Cache
pub mod Status
pub mod Format

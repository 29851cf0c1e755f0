-- ===== src/Functions.antt =====
-- The library for Pulsar Functions (pulsar/functions).
pub mod Serde
